-- ===== src/Core/Codec/Utf8.antt =====
-- What ramqp-core/src/codec/decode.rs asks of Rust's standard library: the UTF-8 validation of
-- `str::from_utf8` and the code points of `char::from_u32`.
use r_amqp.Common.{
  ℕ, Bool, true, false, ◌&&◌, ◌||◌, leb, ltb, ◌==◌, if◌then◌else◌, [], ◌∷◌, zero, suc, length,
}
use r_amqp.Core.Performatives.{Bytes}
use r_amqp.Core.Codec.Reading.{invalid_utf8, Reader, return, fail}

abbrev between : ℕ → ℕ → ℕ → Bool
between lo hi b = leb lo b && leb b hi

-- The next byte of a sequence: `need` more bytes, the first of them in the range.
continues : (need lo hi : ℕ) → (Bytes → Bool) → Bytes → Bool
continues zero lo hi k b = k b
continues (suc n) lo hi k [] = false
continues (suc n) lo hi k (x ∷ b) = between lo hi x && continues n 0x80 0xbf k b

-- What may follow a first byte: how many bytes, and the range of the first of them.
after_first : ℕ → (Bytes → Bool) → Bytes → Bool
unfolding continues
after_first x k b =
    if ltb x 0x80
    then k b
    else if between 0xc2 0xdf x
    then continues 1 0x80 0xbf k b
    else if x == 0xe0
    then continues 2 0xa0 0xbf k b
    else if x == 0xed
    then continues 2 0x80 0x9f k b
    else if between 0xe1 0xef x
    then continues 2 0x80 0xbf k b
    else if x == 0xf0
    then continues 3 0x90 0xbf k b
    else if x == 0xf4
    then continues 3 0x80 0x8f k b
    else if between 0xf1 0xf3 x
    then continues 3 0x80 0xbf k b
    else false

utf8_from : (fuel : ℕ) → Bytes → Bool
unfolding after_first
utf8_from zero b = true
utf8_from (suc fuel) [] = true
utf8_from (suc fuel) (x ∷ b) = after_first x (λ rest. utf8_from fuel rest) b

-- Each round takes a byte or more.
unfoldable pub is_utf8 : Bytes → Bool
unfolding utf8_from
is_utf8 b = utf8_from (length b) b

-- `utf8_string`; a string is its bytes.
unfoldable pub utf8_string : Bytes → Reader Bytes
utf8_string raw = if is_utf8 raw then return raw else fail invalid_utf8

-- A code point that is no surrogate.
unfoldable pub is_char : ℕ → Bool
is_char n = ltb n 0xd800 || between 0xe000 0x10ffff n
