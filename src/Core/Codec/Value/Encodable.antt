-- ===== src/Core/Codec/Value/Encodable.antt =====
-- The values that ramqp-core/src/codec/value.rs encodes without loss: what Rust's types and the 32-bit
-- sizes and counts of the format admit, at most as many levels deep as the decoder goes.
use r_amqp.Common.{ℕ, suc, ◌+◌, ◌≤◌, ◌<◌, ◌≡◌, true, length, ◌++◌}
use r_amqp.Core.Codec.Utf8.{is_utf8, is_char}
use r_amqp.Core.Codec.Value.{
  Value, null, bool, ubyte, ushort, uint, ulong, byte, short, int, long, float, double, decimal32,
  decimal64, decimal128, char, timestamp, uuid, binary, string, symbol, list, map, array, described,
  Values, nil, cons, Entries, end, entry, encode, encode_values, encode_entries, elements, count,
  map_count, Kind, wide, stripped, under_descriptor, kind_of, shared, opening,
}
use r_amqp.Core.Codec.Value.Decode.{max_zero_width_array}

-- A number below 2^16, 2^32, 2^64.
abbrev pub Fits16 : ℕ → Type 0
Fits16 n = n < 0x1_0000

abbrev pub Fits32 : ℕ → Type 0
Fits32 n = n < 0x1_0000_0000

abbrev pub Fits64 : ℕ → Type 0
Fits64 n = n < 0x1_0000_0000_0000_0000

-- A value that holds no value, and that Rust's types admit.
abbrev pub IsScalar : Value → Type 0
IsScalar null = Unit
IsScalar (bool v) = Unit
IsScalar (ubyte n) = n < 256
IsScalar (byte n) = n < 256
IsScalar (ushort n) = Fits16 n
IsScalar (short n) = Fits16 n
IsScalar (uint n) = Fits32 n
IsScalar (int n) = Fits32 n
IsScalar (float n) = Fits32 n
IsScalar (ulong n) = Fits64 n
IsScalar (long n) = Fits64 n
IsScalar (double n) = Fits64 n
IsScalar (timestamp n) = Fits64 n
IsScalar (char n) = is_char n ≡ true
IsScalar (decimal32 b) = length b ≡ 4
IsScalar (decimal64 b) = length b ≡ 8
IsScalar (decimal128 b) = length b ≡ 16
IsScalar (uuid b) = length b ≡ 16
IsScalar (binary b) = Fits32 (length b)
IsScalar (string b) = Fits32 (length b) × (is_utf8 b ≡ true)
IsScalar (symbol b) = Fits32 (length b) × (is_utf8 b ≡ true)
IsScalar _ = ⊥

-- The constructor of the values that an array strips of theirs.
unfoldable pub nested_code : Value → ℕ
nested_code (list vs) = 0xd0
nested_code (map m) = 0xd1
nested_code (array vs) = 0xf0
nested_code _ = 0

-- Each value has the kind and the constructor of an array's first element.
abbrev pub AllAlike : Kind → (nested : ℕ) → Values → Type 0
AllAlike k c nil = Unit
AllAlike k c (cons v vs) = (kind_of v ≡ k) × (nested_code v ≡ c) × AllAlike k c vs

-- An array of nulls has no bytes that its count could be checked against, and of described values
-- only the first one's descriptor and constructor are written.
abbrev pub IsCounted : Kind → ℕ → Type 0
IsCounted (wide c) n = (c ≡ 0x40) → n ≤ max_zero_width_array
IsCounted stripped n = Unit
IsCounted under_descriptor n = ⊥

mutual
  pub data IsEncodable : (levels : ℕ) → Value → Type 0 where
    scalar : {n : ℕ} {v : Value} → IsScalar v → IsEncodable (suc n) v
    list_of :
        {n : ℕ} {vs : Values}
        → AllEncodable n vs
        → Fits32 (length (encode_values vs) + 4)
        → Fits32 (count vs)
        → IsEncodable (suc n) (list vs)
    map_of :
        {n : ℕ} {m : Entries}
        → AllEntries n m
        → Fits32 (length (encode_entries m) + 4)
        → Fits32 (map_count m)
        → IsEncodable (suc n) (map m)
    empty_array : {n : ℕ} → IsEncodable (suc n) (array nil)
    array_of :
        {n : ℕ} {v : Value} {vs : Values}
        → AllEncodable n (cons v vs)
        → AllAlike (kind_of v) (nested_code v) vs
        → IsCounted (kind_of v) (suc (count vs))
        → Fits32 (
            length (shared (kind_of v) (encode v) (opening v) ++ elements (kind_of v) (cons v vs))
            + 4)
        → Fits32 (suc (count vs))
        → IsEncodable (suc n) (array (cons v vs))
    described_as :
        {n : ℕ} {d v : Value}
        → IsEncodable n d
        → IsEncodable n v
        → IsEncodable (suc n) (described d v)

  pub data AllEncodable : (levels : ℕ) → Values → Type 0 where
    nothing : {n : ℕ} → AllEncodable n nil
    also :
        {n : ℕ} {v : Value} {vs : Values}
        → IsEncodable n v
        → AllEncodable n vs
        → AllEncodable n (cons v vs)

  pub data AllEntries : (levels : ℕ) → Entries → Type 0 where
    no_entry : {n : ℕ} → AllEntries n end
    and_entry :
        {n : ℕ} {k v : Value} {m : Entries}
        → IsEncodable n k
        → IsEncodable n v
        → AllEntries n m
        → AllEntries n (entry k v m)
