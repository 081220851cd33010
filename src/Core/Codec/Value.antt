-- ===== src/Core/Codec/Value.antt =====
-- ramqp-core/src/codec/value.rs: the self-describing value and its encoding. A signed integer is its
-- two's complement pattern, a float its bits; a decimal, a uuid and a string are their bytes.
pub mod Decode
pub mod Encodable
pub mod Scalars
pub mod Bodies
pub mod Arrays
pub mod RoundTrip
pub mod DescribedArray
use r_amqp.Common.{
  ℕ, suc, ◌+◌, ◌*◌, Bool, true, false, ◌==◌, if◌then◌else◌, List, [], ◌∷◌, ◌++◌, take, drop,
  be_bytes, length,
}
use r_amqp.Core.Performatives.{Bytes}
use r_amqp.Core.Codec.Primitives.{
  encode_var, encode_bool, encode_uint, encode_ulong, encode_int, encode_long, compound,
}

mutual
  pub data Value : Type 0 where
    null : Value
    bool : Bool → Value
    ubyte ushort uint ulong byte short int long float double : ℕ → Value
    decimal32 decimal64 decimal128 : Bytes → Value
    char timestamp : ℕ → Value
    uuid binary string symbol : Bytes → Value
    list : Values → Value
    map : Entries → Value
    array : Values → Value
    described : (descriptor body : Value) → Value

  pub data Values : Type 0 where
    nil : Values
    cons : Value → Values → Values

  -- The entries of an `OrderedMap`.
  pub data Entries : Type 0 where
    end : Entries
    entry : (key value : Value) → Entries → Entries

abbrev pub count : Values → ℕ
count nil = 0
count (cons v vs) = suc (count vs)

-- Twice the number of entries.
abbrev pub map_count : Entries → ℕ
map_count end = 0
map_count (entry k v m) = map_count m + 2

-- How the elements of an array are encoded: under one wide constructor, with their constructor
-- stripped, or as the bodies of described values.
pub data Kind : Type 0 where
  wide : (ctor : ℕ) → Kind
  stripped under_descriptor : Kind

-- `encode_value_array` goes by the first element.
unfoldable pub kind_of : Value → Kind
kind_of null = wide 0x40
kind_of (bool v) = wide 0x56
kind_of (ubyte n) = wide 0x50
kind_of (ushort n) = wide 0x60
kind_of (uint n) = wide 0x70
kind_of (ulong n) = wide 0x80
kind_of (byte n) = wide 0x51
kind_of (short n) = wide 0x61
kind_of (int n) = wide 0x71
kind_of (long n) = wide 0x81
kind_of (float n) = wide 0x72
kind_of (double n) = wide 0x82
kind_of (decimal32 b) = wide 0x74
kind_of (decimal64 b) = wide 0x84
kind_of (decimal128 b) = wide 0x94
kind_of (char n) = wide 0x73
kind_of (timestamp n) = wide 0x83
kind_of (uuid b) = wide 0x98
kind_of (binary b) = wide 0xb0
kind_of (string b) = wide 0xb1
kind_of (symbol b) = wide 0xb3
kind_of (list vs) = stripped
kind_of (map m) = stripped
kind_of (array vs) = stripped
kind_of (described d v) = under_descriptor

-- The body of an array's element after its wide constructor.
unfoldable pub wide_body : Value → Bytes
wide_body (bool v) = (if v then 1 else 0) ∷ []
wide_body (ubyte n) = n ∷ []
wide_body (byte n) = n ∷ []
wide_body (ushort n) = be_bytes 2 n
wide_body (short n) = be_bytes 2 n
wide_body (uint n) = be_bytes 4 n
wide_body (int n) = be_bytes 4 n
wide_body (float n) = be_bytes 4 n
wide_body (char n) = be_bytes 4 n
wide_body (ulong n) = be_bytes 8 n
wide_body (long n) = be_bytes 8 n
wide_body (double n) = be_bytes 8 n
wide_body (timestamp n) = be_bytes 8 n
wide_body (decimal32 b) = b
wide_body (decimal64 b) = b
wide_body (decimal128 b) = b
wide_body (uuid b) = b
wide_body (binary b) = be_bytes 4 (length b) ++ b
wide_body (string b) = be_bytes 4 (length b) ++ b
wide_body (symbol b) = be_bytes 4 (length b) ++ b
wide_body _ = []

unfoldable pub has_ctor : ℕ → Kind → Bool
has_ctor c (wide d) = c == d
has_ctor c stripped = false
has_ctor c under_descriptor = false

-- One element of an array, with its own encoding and that of what it describes. An element of
-- another type than the first adds nothing under a wide constructor.
unfoldable pub element : Kind → Value → (encoded inner : Bytes) → Bytes
element (wide c) v encoded inner = if has_ctor c (kind_of v) then wide_body v else []
element stripped v encoded inner = drop 1 encoded
element under_descriptor v encoded inner = drop 1 inner

-- What stands before the elements: the constructor that they share.
unfoldable pub shared : Kind → (encoded opened : Bytes) → Bytes
shared (wide c) encoded opened = c ∷ []
shared stripped encoded opened = take 1 encoded
shared under_descriptor encoded opened = opened

unfoldable mutual
  unfolding encode_var encode_bool encode_uint encode_ulong encode_int encode_long compound shared
      element

  pub encode : Value → Bytes
  encode null = 0x40 ∷ []
  encode (bool v) = encode_bool v
  encode (ubyte n) = 0x50 ∷ n ∷ []
  encode (ushort n) = 0x60 ∷ be_bytes 2 n
  encode (uint n) = encode_uint n
  encode (ulong n) = encode_ulong n
  encode (byte n) = 0x51 ∷ n ∷ []
  encode (short n) = 0x61 ∷ be_bytes 2 n
  encode (int n) = encode_int n
  encode (long n) = encode_long n
  encode (float n) = 0x72 ∷ be_bytes 4 n
  encode (double n) = 0x82 ∷ be_bytes 8 n
  encode (decimal32 b) = 0x74 ∷ b
  encode (decimal64 b) = 0x84 ∷ b
  encode (decimal128 b) = 0x94 ∷ b
  encode (char n) = 0x73 ∷ be_bytes 4 n
  encode (timestamp n) = 0x83 ∷ be_bytes 8 n
  encode (uuid b) = 0x98 ∷ b
  encode (binary b) = encode_var 0xa0 0xb0 b
  encode (string b) = encode_var 0xa1 0xb1 b
  encode (symbol b) = encode_var 0xa3 0xb3 b
  encode (list vs) = compound 0xd0 (encode_values vs) (count vs)
  encode (map m) = compound 0xd1 (encode_entries m) (map_count m)
  encode (array nil) = compound 0xf0 (0x40 ∷ []) 0
  encode (array (cons v vs)) =
      compound 0xf0 (shared (kind_of v) (encode v) (opening v) ++ elements (kind_of v) (cons v vs))
        (suc (count vs))
  encode (described d v) = 0x00 ∷ (encode d ++ encode v)

  pub encode_values : Values → Bytes
  encode_values nil = []
  encode_values (cons v vs) = encode v ++ encode_values vs

  pub encode_entries : Entries → Bytes
  encode_entries end = []
  encode_entries (entry k v m) = encode k ++ (encode v ++ encode_entries m)

  pub elements : Kind → Values → Bytes
  elements k nil = []
  elements k (cons v vs) = element k v (encode v) (inner v) ++ elements k vs

  -- The encoding of what a described value holds, and its shared header in an array.
  pub inner : Value → Bytes
  inner (described d v) = encode v
  inner _ = []

  pub opening : Value → Bytes
  opening (described d v) = 0x00 ∷ (encode d ++ take 1 (encode v))
  opening _ = []
