-- ===== src/Core/Codec/Value/Scalars.antt =====
-- ramqp-core/src/codec/value.rs: decoding takes back a value that holds no other.
use r_amqp.Common.{
  ℕ, suc, ◌≡◌, refl, arith, ap, ◌∙◌, inl, inr, true, false, Bool-cases, ◌==◌, leb, ltb, ◌||◌, ◌∷◌,
  ◌++◌, length, be_bytes,
}
use r_amqp.Core.Performatives.{Bytes}
use r_amqp.Core.Codec.Reading.{
  >>=-ok, Reader, ◌>>=◌, ok, read_u8, read_be, read_bytes, read_bytes-append, read_be2-append,
  read_be4-append, read_be8-append,
}
use r_amqp.Core.Codec.Utf8.{is_utf8, utf8_string, is_char}
use r_amqp.Core.Codec.Primitives.{
  encode_var, encode_uint, encode_ulong, encode_int, encode_long, sign_extend, read_var8,
  read_var32,
}
use r_amqp.Core.Codec.Value.{
  Value, null, bool, ubyte, ushort, uint, ulong, byte, short, int, long, float, double, decimal32,
  decimal64, decimal128, char, timestamp, uuid, binary, string, symbol, list, map, array, described,
  encode,
}
use r_amqp.Core.Codec.Value.Encodable.{Fits32, Fits64, IsScalar}
use r_amqp.Core.Codec.Value.Decode.{decode_value, decode_body, read_char}

read_var8-append : (b rest : Bytes) → read_var8 (length b ∷ (b ++ rest)) ≡ ok (b, rest)
unfolding read_var8 read_u8
read_var8-append b rest = read_bytes-append (length b) b rest refl

pub read_var32-append :
    (b rest : Bytes)
    → Fits32 (length b)
    → read_var32 (be_bytes 4 (length b) ++ (b ++ rest)) ≡ ok (b, rest)
unfolding read_var32
read_var32-append b rest h =
    >>=-ok (read_be 4) _ _ (read_be4-append (length b) (b ++ rest) h)
    ∙ read_bytes-append (length b) b rest refl

utf8_string-ok : (b rest : Bytes) → is_utf8 b ≡ true → utf8_string b rest ≡ ok (b, rest)
unfolding utf8_string
utf8_string-ok b rest h = rw h refl

read_text8-append :
    (b rest : Bytes)
    → is_utf8 b ≡ true
    → (read_var8 >>= utf8_string) (length b ∷ (b ++ rest)) ≡ ok (b, rest)
read_text8-append b rest h =
    >>=-ok read_var8 utf8_string _ (read_var8-append b rest) ∙ utf8_string-ok b rest h

pub read_text32-append :
    (b rest : Bytes)
    → Fits32 (length b)
    → is_utf8 b ≡ true
    → (read_var32 >>= utf8_string) (be_bytes 4 (length b) ++ (b ++ rest)) ≡ ok (b, rest)
read_text32-append b rest f h =
    >>=-ok read_var32 utf8_string _ (read_var32-append b rest f) ∙ utf8_string-ok b rest h

-- The forms of `encode_var` under codes whose decoding is a read of what follows.
encode_var-read :
    {A : Type 0} (f : ℕ → Reader A) (a : A) (code8 code32 : ℕ) (b rest : Bytes)
    → f code8 (length b ∷ (b ++ rest)) ≡ ok (a, rest)
    → f code32 (be_bytes 4 (length b) ++ (b ++ rest)) ≡ ok (a, rest)
    → (read_u8 >>= f) (encode_var code8 code32 b ++ rest) ≡ ok (a, rest)
unfolding encode_var read_u8
encode_var-read f a code8 code32 b rest narrow broad = elim (Bool-cases (leb (length b) 255)) [
  | inl e ↦ rw e narrow
  | inr e ↦ rw e broad
]

pub char-Fits32 : (x : ℕ) → is_char x ≡ true → Fits32 x
unfolding is_char
char-Fits32 x h = ground arith

uint-decode :
    (x n : ℕ) (rest : Bytes)
    → Fits32 x
    → decode_value (suc n) (encode (uint x) ++ rest) ≡ ok (uint x, rest)
unfolding encode encode_uint decode_value decode_body read_u8
uint-decode x n rest h = elim (Bool-cases (x == 0)) [
  | inl e ↦ rw e (ap (λ m. ok (uint m, rest)) (ground (arith, e)))
  | inr e ↦ elim (Bool-cases (leb x 255)) [
    | inl e' ↦ rw e (rw e' refl)
    | inr e' ↦ rw e (rw e' (>>=-ok (read_be 4) _ _ (read_be4-append x rest h)))
  ]
]

ulong-decode :
    (x n : ℕ) (rest : Bytes)
    → Fits64 x
    → decode_value (suc n) (encode (ulong x) ++ rest) ≡ ok (ulong x, rest)
unfolding encode encode_ulong decode_value decode_body read_u8
ulong-decode x n rest h = elim (Bool-cases (x == 0)) [
  | inl e ↦ rw e (ap (λ m. ok (ulong m, rest)) (ground (arith, e)))
  | inr e ↦ elim (Bool-cases (leb x 255)) [
    | inl e' ↦ rw e (rw e' refl)
    | inr e' ↦ rw e (rw e' (>>=-ok (read_be 8) _ _ (read_be8-append x rest h)))
  ]
]

int-decode :
    (x n : ℕ) (rest : Bytes)
    → Fits32 x
    → decode_value (suc n) (encode (int x) ++ rest) ≡ ok (int x, rest)
unfolding encode encode_int decode_value decode_body read_u8 sign_extend
int-decode x n rest h = elim (Bool-cases (ltb x 128 || leb 0xffff_ff80 x)) [
  | inl e ↦ rw e (ap (λ m. ok (int m, rest)) (ground arith))
  | inr e ↦ rw e (>>=-ok (read_be 4) _ _ (read_be4-append x rest h))
]

long-decode :
    (x n : ℕ) (rest : Bytes)
    → Fits64 x
    → decode_value (suc n) (encode (long x) ++ rest) ≡ ok (long x, rest)
unfolding encode encode_long decode_value decode_body read_u8 sign_extend
long-decode x n rest h = elim (Bool-cases (ltb x 128 || leb 0xffff_ffff_ffff_ff80 x)) [
  | inl e ↦ rw e (ap (λ m. ok (long m, rest)) (ground arith))
  | inr e ↦ rw e (>>=-ok (read_be 8) _ _ (read_be8-append x rest h))
]

pub scalar-decode :
    (v : Value) (n : ℕ) (rest : Bytes)
    → IsScalar v
    → decode_value (suc n) (encode v ++ rest) ≡ ok (v, rest)
unfolding encode decode_value decode_body read_u8 read_char
scalar-decode null n rest h = refl
scalar-decode (bool true) n rest h = refl
scalar-decode (bool false) n rest h = refl
scalar-decode (ubyte x) n rest h = refl
scalar-decode (byte x) n rest h = refl
scalar-decode (ushort x) n rest h = >>=-ok (read_be 2) _ _ (read_be2-append x rest h)
scalar-decode (short x) n rest h = >>=-ok (read_be 2) _ _ (read_be2-append x rest h)
scalar-decode (uint x) n rest h = uint-decode x n rest h
scalar-decode (int x) n rest h = int-decode x n rest h
scalar-decode (float x) n rest h = >>=-ok (read_be 4) _ _ (read_be4-append x rest h)
scalar-decode (ulong x) n rest h = ulong-decode x n rest h
scalar-decode (long x) n rest h = long-decode x n rest h
scalar-decode (double x) n rest h = >>=-ok (read_be 8) _ _ (read_be8-append x rest h)
scalar-decode (timestamp x) n rest h = >>=-ok (read_be 8) _ _ (read_be8-append x rest h)
scalar-decode (char x) n rest h =
    >>=-ok (read_be 4) _ _ (read_be4-append x rest (char-Fits32 x h)) ∙ rw h refl
scalar-decode (decimal32 b) n rest h = >>=-ok (read_bytes 4) _ _ (read_bytes-append 4 b rest h)
scalar-decode (decimal64 b) n rest h = >>=-ok (read_bytes 8) _ _ (read_bytes-append 8 b rest h)
scalar-decode (decimal128 b) n rest h = >>=-ok (read_bytes 16) _ _ (read_bytes-append 16 b rest h)
scalar-decode (uuid b) n rest h = >>=-ok (read_bytes 16) _ _ (read_bytes-append 16 b rest h)
scalar-decode (binary b) n rest h =
    encode_var-read (decode_body (suc n)) (binary b) 0xa0 0xb0 b rest
      (>>=-ok read_var8 _ _ (read_var8-append b rest))
      (>>=-ok read_var32 _ _ (read_var32-append b rest h))
scalar-decode (string b) n rest h =
    encode_var-read (decode_body (suc n)) (string b) 0xa1 0xb1 b rest
      (>>=-ok (read_var8 >>= utf8_string) _ _ (read_text8-append b rest h.1))
      (>>=-ok (read_var32 >>= utf8_string) _ _ (read_text32-append b rest h.0 h.1))
scalar-decode (symbol b) n rest h =
    encode_var-read (decode_body (suc n)) (symbol b) 0xa3 0xb3 b rest
      (>>=-ok (read_var8 >>= utf8_string) _ _ (read_text8-append b rest h.1))
      (>>=-ok (read_var32 >>= utf8_string) _ _ (read_text32-append b rest h.0 h.1))
scalar-decode (list vs) n rest h = elim h [ ]
scalar-decode (map m) n rest h = elim h [ ]
scalar-decode (array vs) n rest h = elim h [ ]
scalar-decode (described d v) n rest h = elim h [ ]
