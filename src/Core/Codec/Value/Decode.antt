-- ===== src/Core/Codec/Value/Decode.antt =====
-- ramqp-core/src/codec/value.rs: decoding of a value, on the levels of nesting that are left. The
-- source counts the depth up and refuses what is deeper than 64; 65 levels are left at depth 0.
use r_amqp.Common.{
  ℕ, zero, suc, ◌/◌, ◌%◌, Bool, true, false, ◌||◌, leb, ◌==◌, if◌then◌else◌, length,
}
use r_amqp.Core.Performatives.{Bytes}
use r_amqp.Core.Codec.Reading.{
  ok, err, Reader, ◌>>=◌, return, fail, invalid_format_code, invalid_value, nesting_too_deep,
  read_u8, read_be, read_bytes,
}
use r_amqp.Core.Codec.Utf8.{utf8_string, is_char}
use r_amqp.Core.Codec.Primitives.{
  sign_extend, read_var8, read_var32, read_bool_byte, read_compound8, read_compound32,
}
use r_amqp.Core.Codec.Value.{
  Value, null, bool, ubyte, ushort, uint, ulong, byte, short, int, long, float, double, decimal32,
  decimal64, decimal128, char, timestamp, uuid, binary, string, symbol, list, map, array, described,
  Values, nil, cons, Entries, end, entry,
}

abbrev pub max_depth : ℕ
max_depth = 64

abbrev pub max_zero_width_array : ℕ
max_zero_width_array = 1024

-- A read under a constructor of values.
infixl 5 ◌<$>◌
abbrev pub ◌<$>◌ : {A B : Type 0} → (A → B) → Reader A → Reader B
f <$> r = r >>= λ a. return (f a)

unfoldable pub read_char : Reader Value
read_char = read_be 4 >>= λ n. if is_char n then return (char n) else fail invalid_value

-- The types of a fixed width; `other` reads any other code.
unfoldable pub decode_fixed : (code : ℕ) → (other : Reader Value) → Reader Value
unfolding read_char
decode_fixed code other =
    if code == 0x40
    then return null
    else if code == 0x41
    then return (bool true)
    else if code == 0x42
    then return (bool false)
    else if code == 0x56
    then bool <$> read_bool_byte
    else if code == 0x50
    then ubyte <$> read_u8
    else if code == 0x51
    then byte <$> read_u8
    else if code == 0x60
    then ushort <$> read_be 2
    else if code == 0x61
    then short <$> read_be 2
    else if code == 0x43
    then return (uint 0)
    else if code == 0x52
    then uint <$> read_u8
    else if code == 0x70
    then uint <$> read_be 4
    else if code == 0x44
    then return (ulong 0)
    else if code == 0x53
    then ulong <$> read_u8
    else if code == 0x80
    then ulong <$> read_be 8
    else if code == 0x54
    then (λ b. int (sign_extend 0x1_0000_0000 b)) <$> read_u8
    else if code == 0x71
    then int <$> read_be 4
    else if code == 0x55
    then (λ b. long (sign_extend 0x1_0000_0000_0000_0000 b)) <$> read_u8
    else if code == 0x81
    then long <$> read_be 8
    else if code == 0x72
    then float <$> read_be 4
    else if code == 0x82
    then double <$> read_be 8
    else if code == 0x74
    then decimal32 <$> read_bytes 4
    else if code == 0x84
    then decimal64 <$> read_bytes 8
    else if code == 0x94
    then decimal128 <$> read_bytes 16
    else if code == 0x73
    then read_char
    else if code == 0x83
    then timestamp <$> read_be 8
    else if code == 0x98
    then uuid <$> read_bytes 16
    else other

-- The types of a length of one byte or four.
unfoldable pub decode_variable : (code : ℕ) → (other : Reader Value) → Reader Value
decode_variable code other =
    if code == 0xa0
    then binary <$> read_var8
    else if code == 0xb0
    then binary <$> read_var32
    else if code == 0xa1
    then string <$> (read_var8 >>= utf8_string)
    else if code == 0xb1
    then string <$> (read_var32 >>= utf8_string)
    else if code == 0xa3
    then symbol <$> (read_var8 >>= utf8_string)
    else if code == 0xb3
    then symbol <$> (read_var32 >>= utf8_string)
    else other

-- `decode_n`.
unfoldable pub decode_n : Reader Value → (count : ℕ) → Reader Values
decode_n value zero = return nil
decode_n value (suc n) = value >>= λ v. cons v <$> decode_n value n

unfoldable pub decode_pairs : Reader Value → (entries : ℕ) → Reader Entries
decode_pairs value zero = return end
decode_pairs value (suc n) = value >>= λ k. value >>= λ v. entry k v <$> decode_pairs value n

unfoldable pub decode_map : Reader Value → (count : ℕ) → Reader Entries
unfolding decode_pairs
decode_map value count =
    if count % 2 == 0 then decode_pairs value (count / 2) else fail invalid_value

unfoldable pub is_zero_width : ℕ → Bool
is_zero_width c = c == 0x40 || c == 0x41 || c == 0x42 || c == 0x43 || c == 0x44 || c == 0x45

-- `check_array_count` passes.
unfoldable pub array_count_ok : (count ctor remaining : ℕ) → Bool
unfolding is_zero_width
array_count_ok count ctor remaining =
    leb count (if is_zero_width ctor then max_zero_width_array else remaining)

-- The elements of an array under one constructor, each seen through `wrap`.
unfoldable pub decode_elements :
    (Value → Value) → (ℕ → Reader Value) → (count ctor : ℕ) → Reader Values
decode_elements wrap body count ctor b =
    if array_count_ok count ctor (length b)
    then decode_n (wrap <$> body ctor) count b
    else err invalid_value

-- `decode_array`, on the bytes of the array.
unfoldable pub decode_array : (ℕ → Reader Value) → (count : ℕ) → Reader Values
decode_array body count = read_u8 >>= λ ctor.
    if ctor == 0x00
    then ((read_u8 >>= body) >>= λ d.
        read_u8 >>= λ inner. decode_elements (described d) body count inner)
    else decode_elements (λ v. v) body count ctor

-- A compound: its elements are decoded from its own bytes, and what they leave is dropped.
unfoldable pub contents : {A : Type 0} → (ℕ → Reader A) → ℕ × Bytes → Reader A
contents elements (count, content) rest = elim (elements count content) [
  | err e ↦ err e
  | ok (a, left) ↦ ok (a, rest)
]

unfoldable pub within : {A : Type 0} → Reader (ℕ × Bytes) → (ℕ → Reader A) → Reader A
unfolding contents
within header elements = header >>= contents elements

-- The nested types, where `body` decodes what follows a constructor one level down.
unfoldable pub decode_nested : (ℕ → Reader Value) → (code : ℕ) → Reader Value
decode_nested body code =
    if code == 0x45
    then return (list nil)
    else if code == 0xc0
    then list <$> within read_compound8 (decode_n (read_u8 >>= body))
    else if code == 0xd0
    then list <$> within read_compound32 (decode_n (read_u8 >>= body))
    else if code == 0xc1
    then map <$> within read_compound8 (decode_map (read_u8 >>= body))
    else if code == 0xd1
    then map <$> within read_compound32 (decode_map (read_u8 >>= body))
    else if code == 0xe0
    then array <$> within read_compound8 (decode_array body)
    else if code == 0xf0
    then array <$> within read_compound32 (decode_array body)
    else if code == 0x00
    then ((read_u8 >>= body) >>= λ d. described d <$> (read_u8 >>= body))
    else fail (invalid_format_code code)

-- `decode_value_body`.
unfoldable pub decode_body : (levels : ℕ) → (code : ℕ) → Reader Value
unfolding decode_fixed decode_variable decode_nested
decode_body zero code = fail nesting_too_deep
decode_body (suc levels) code =
    decode_fixed code (decode_variable code (decode_nested (decode_body levels) code))

-- `decode_value`.
unfoldable pub decode_value : (levels : ℕ) → Reader Value
decode_value levels = read_u8 >>= decode_body levels

-- `Value::decode`.
unfoldable pub decode : Reader Value
unfolding decode_value
decode = decode_value (suc max_depth)
