-- ===== src/Core/Codec/Value/Bodies.antt =====
-- ramqp-core/src/codec/value.rs: a scalar as the element of an array.
use r_amqp.Common.{◌⊎◌, ℕ, suc, ◌≤◌, ◌≡◌, refl, arith, ◌∙◌, inl, inr, true, false, ◌++◌, length}
use r_amqp.Core.Performatives.{Bytes}
use r_amqp.Core.Codec.Reading.{
  >>=-ok, ◌>>=◌, ok, read_u8, read_be, read_bytes, read_bytes-append, read_be2-append,
  read_be4-append, read_be8-append,
}
use r_amqp.Core.Codec.Utf8.{utf8_string}
use r_amqp.Core.Codec.Primitives.{read_bool_byte, read_var32}
use r_amqp.Core.Codec.Value.{
  Value, null, bool, ubyte, ushort, uint, ulong, byte, short, int, long, float, double, decimal32,
  decimal64, decimal128, char, timestamp, uuid, binary, string, symbol, list, map, array, described,
  Kind, wide, kind_of, wide_body,
}
use r_amqp.Core.Codec.Value.Encodable.{IsScalar}
use r_amqp.Core.Codec.Value.Decode.{decode_body, read_char}
use r_amqp.Core.Codec.Value.{stripped, under_descriptor, wide_body}
use r_amqp.Core.Codec.Value.Scalars.{read_var32-append, read_text32-append, char-Fits32}

-- The constructor that the elements of a kind share.
unfoldable pub code : Kind → (nested : ℕ) → ℕ
code (wide c) nested = c
code stripped nested = nested
code under_descriptor nested = 0

-- A scalar's constructor in an array, and that all but null have bytes under it.
pub scalar-kind :
    (v : Value)
    → IsScalar v
    → (kind_of v ≡ wide (code (kind_of v) 0))
      × ((kind_of v ≡ wide 0x40) ⊎ ((0x50 ≤ code (kind_of v) 0) × (1 ≤ length (wide_body v))))
unfolding kind_of code wide_body
scalar-kind null h = (refl, inl refl)
scalar-kind (bool x) h = (refl, inr (omega arith, omega arith))
scalar-kind (ubyte x) h = (refl, inr (omega arith, omega arith))
scalar-kind (byte x) h = (refl, inr (omega arith, omega arith))
scalar-kind (ushort x) h = (refl, inr (omega arith, omega arith))
scalar-kind (short x) h = (refl, inr (omega arith, omega arith))
scalar-kind (uint x) h = (refl, inr (omega arith, omega arith))
scalar-kind (int x) h = (refl, inr (omega arith, omega arith))
scalar-kind (float x) h = (refl, inr (omega arith, omega arith))
scalar-kind (ulong x) h = (refl, inr (omega arith, omega arith))
scalar-kind (long x) h = (refl, inr (omega arith, omega arith))
scalar-kind (double x) h = (refl, inr (omega arith, omega arith))
scalar-kind (timestamp x) h = (refl, inr (omega arith, omega arith))
scalar-kind (char x) h = (refl, inr (omega arith, omega arith))
scalar-kind (decimal32 b) h = (refl, inr (omega arith, rw h (omega arith)))
scalar-kind (decimal64 b) h = (refl, inr (omega arith, rw h (omega arith)))
scalar-kind (decimal128 b) h = (refl, inr (omega arith, rw h (omega arith)))
scalar-kind (uuid b) h = (refl, inr (omega arith, rw h (omega arith)))
scalar-kind (binary b) h = (refl, inr (omega arith, omega arith))
scalar-kind (string b) h = (refl, inr (omega arith, omega arith))
scalar-kind (symbol b) h = (refl, inr (omega arith, omega arith))
scalar-kind (list vs) h = elim h [ ]
scalar-kind (map m) h = elim h [ ]
scalar-kind (array vs) h = elim h [ ]
scalar-kind (described d v) h = elim h [ ]

-- A scalar decodes from its body under the wide constructor.
pub wide-decode :
    (v : Value) (n : ℕ) (rest : Bytes)
    → IsScalar v
    → decode_body (suc n) (code (kind_of v) 0) (wide_body v ++ rest) ≡ ok (v, rest)
unfolding kind_of code wide_body decode_body read_u8 read_char read_bool_byte
wide-decode null n rest h = refl
wide-decode (bool true) n rest h = refl
wide-decode (bool false) n rest h = refl
wide-decode (ubyte x) n rest h = refl
wide-decode (byte x) n rest h = refl
wide-decode (ushort x) n rest h = >>=-ok (read_be 2) _ _ (read_be2-append x rest h)
wide-decode (short x) n rest h = >>=-ok (read_be 2) _ _ (read_be2-append x rest h)
wide-decode (uint x) n rest h = >>=-ok (read_be 4) _ _ (read_be4-append x rest h)
wide-decode (int x) n rest h = >>=-ok (read_be 4) _ _ (read_be4-append x rest h)
wide-decode (float x) n rest h = >>=-ok (read_be 4) _ _ (read_be4-append x rest h)
wide-decode (ulong x) n rest h = >>=-ok (read_be 8) _ _ (read_be8-append x rest h)
wide-decode (long x) n rest h = >>=-ok (read_be 8) _ _ (read_be8-append x rest h)
wide-decode (double x) n rest h = >>=-ok (read_be 8) _ _ (read_be8-append x rest h)
wide-decode (timestamp x) n rest h = >>=-ok (read_be 8) _ _ (read_be8-append x rest h)
wide-decode (char x) n rest h =
    >>=-ok (read_be 4) _ _ (read_be4-append x rest (char-Fits32 x h)) ∙ rw h refl
wide-decode (decimal32 b) n rest h = >>=-ok (read_bytes 4) _ _ (read_bytes-append 4 b rest h)
wide-decode (decimal64 b) n rest h = >>=-ok (read_bytes 8) _ _ (read_bytes-append 8 b rest h)
wide-decode (decimal128 b) n rest h = >>=-ok (read_bytes 16) _ _ (read_bytes-append 16 b rest h)
wide-decode (uuid b) n rest h = >>=-ok (read_bytes 16) _ _ (read_bytes-append 16 b rest h)
wide-decode (binary b) n rest h = >>=-ok read_var32 _ _ (read_var32-append b rest h)
wide-decode (string b) n rest h =
    >>=-ok (read_var32 >>= utf8_string) _ _ (read_text32-append b rest h.0 h.1)
wide-decode (symbol b) n rest h =
    >>=-ok (read_var32 >>= utf8_string) _ _ (read_text32-append b rest h.0 h.1)
wide-decode (list vs) n rest h = elim h [ ]
wide-decode (map m) n rest h = elim h [ ]
wide-decode (array vs) n rest h = elim h [ ]
wide-decode (described d v) n rest h = elim h [ ]
