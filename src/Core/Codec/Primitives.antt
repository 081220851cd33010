-- ===== src/Core/Codec/Primitives.antt =====
-- ramqp-core/src/codec/encode.rs and decode.rs: the format codes, and the encoding of each primitive
-- type. A signed integer is its two's complement pattern, a float its bits, a string its bytes.
use r_amqp.Common.{
  ℕ, ◌+◌, ◌-◌, ◌%◌, Bool, true, false, ◌||◌, leb, ltb, ◌==◌, if◌then◌else◌, [], ◌∷◌, ◌++◌, length,
  be_bytes,
}
use r_amqp.Core.Performatives.{Bytes}
use r_amqp.Core.Codec.Reading.{
  ok, err, Reader, ◌>>=◌, return, fail, invalid_value, read_u8, read_be, read_bytes,
}

-- `encode_var`.
unfoldable pub encode_var : (code8 code32 : ℕ) → Bytes → Bytes
encode_var code8 code32 b =
    if leb (length b) 255 then code8 ∷ length b ∷ b else code32 ∷ (be_bytes 4 (length b) ++ b)

unfoldable pub encode_bool : Bool → Bytes
encode_bool v = (if v then 0x41 else 0x42) ∷ []

unfoldable pub encode_uint : ℕ → Bytes
encode_uint n =
    if n == 0 then 0x43 ∷ [] else if leb n 255 then 0x52 ∷ n ∷ [] else 0x70 ∷ be_bytes 4 n

unfoldable pub encode_ulong : ℕ → Bytes
encode_ulong n =
    if n == 0 then 0x44 ∷ [] else if leb n 255 then 0x53 ∷ n ∷ [] else 0x80 ∷ be_bytes 8 n

-- The patterns of -128 to 127 at 32 bits have the short form.
unfoldable pub encode_int : ℕ → Bytes
encode_int n = if ltb n 128 || leb 0xffff_ff80 n then 0x54 ∷ (n % 256) ∷ [] else 0x71 ∷ be_bytes 4 n

unfoldable pub encode_long : ℕ → Bytes
encode_long n =
    if ltb n 128 || leb 0xffff_ffff_ffff_ff80 n then 0x55 ∷ (n % 256) ∷ [] else 0x81 ∷ be_bytes 8 n

-- `read_u8(buf)? as i8 as i32`, and to 64 bits.
unfoldable pub sign_extend : (modulus : ℕ) → ℕ → ℕ
sign_extend modulus b = if ltb b 128 then b else modulus - 256 + b

-- A header of `open_compound`, patched by `close_compound`.
unfoldable pub compound : (code : ℕ) → (content : Bytes) → (count : ℕ) → Bytes
compound code content count =
    code ∷ (be_bytes 4 (length content + 4) ++ (be_bytes 4 count ++ content))

-- A length of one byte, and of four, with what it measures.
unfoldable pub read_var8 : Reader Bytes
read_var8 = read_u8 >>= λ n. read_bytes n

unfoldable pub read_var32 : Reader Bytes
read_var32 = read_be 4 >>= λ n. read_bytes n

unfoldable pub read_bool_byte : Reader Bool
read_bool_byte = read_u8 >>= λ n.
    if n == 0 then return false else if n == 1 then return true else fail invalid_value

-- The count and the elements of a compound: `read_list_header` and the like after the code.
unfoldable pub read_count : (width : ℕ) → Bytes → Reader (ℕ × Bytes)
read_count width body rest = elim (read_be width body) [
  | err e ↦ err e
  | ok (count, elements) ↦ ok ((count, elements), rest)
]

unfoldable pub read_compound8 : Reader (ℕ × Bytes)
unfolding read_count
read_compound8 = read_var8 >>= read_count 1

unfoldable pub read_compound32 : Reader (ℕ × Bytes)
unfolding read_count
read_compound32 = read_var32 >>= read_count 4
