-- ===== src/Core/Codec/Reading.antt =====
-- ramqp-core/src/codec/decode.rs and primitives.rs: format codes, errors, and the bounds-checked
-- reads. A buffer is the list of the bytes left; a reader returns what it read and the rest.
use r_amqp.Common.{
  ℕ, ◌-◌, ◌<◌, ◌≡◌, refl, arith, ap, ◌∙◌, [], ◌∷◌, ◌++◌, ltb, if◌then◌else◌, length, take, drop,
  length-append, be_bytes, be_value,
}
use r_amqp.Core.Performatives.{Bytes}

pub data DecodeError : Type 0 where
  eof : (needed : ℕ) → DecodeError
  invalid_format_code : (code : ℕ) → DecodeError
  invalid_utf8 invalid_value nesting_too_deep : DecodeError
  unexpected_descriptor : (expected : ℕ) → DecodeError
  missing_field : DecodeError

pub data Result {ℓ} (A : Type ℓ) : Type ℓ where
  ok : A → Result A
  err : DecodeError → Result A

abbrev pub Reader : Type 0 → Type 0
Reader A = Bytes → Result (A × Bytes)

infixl 5 ◌>>=◌
abbrev pub ◌>>=◌ : {A B : Type 0} → Reader A → (A → Reader B) → Reader B
◌>>=◌ m f b = elim (m b) [ ok (a, rest) ↦ f a rest | err e ↦ err e ]

abbrev pub return : {A : Type 0} → A → Reader A
return a b = ok (a, b)

abbrev pub fail : {A : Type 0} → DecodeError → Reader A
fail e b = err e

unfoldable pub read_bytes : ℕ → Reader Bytes
read_bytes n b = if ltb (length b) n then err (eof (n - length b)) else ok (take n b, drop n b)

unfoldable pub read_u8 : Reader ℕ
read_u8 [] = err (eof 1)
read_u8 (x ∷ b) = ok (x, b)

-- `read_u16`, `read_u32` and `read_u64`.
unfoldable pub read_be : ℕ → Reader ℕ
unfolding read_bytes
read_be k = read_bytes k >>= λ x. return (be_value 0 x)

take-all : (xs ys : Bytes) → take (length xs) (xs ++ ys) ≡ xs
take-all [] ys = refl
take-all (x ∷ xs) ys = ap (◌∷◌ x) (take-all xs ys)

drop-all : (xs ys : Bytes) → drop (length xs) (xs ++ ys) ≡ ys
drop-all [] ys = refl
drop-all (x ∷ xs) ys = drop-all xs ys

pub read_bytes-append :
    (n : ℕ) (xs rest : Bytes) → length xs ≡ n → read_bytes n (xs ++ rest) ≡ ok (xs, rest)
unfolding read_bytes
read_bytes-append n xs rest e =
    rw (← e) (ground (arith, take-all xs rest, drop-all xs rest, length-append xs rest))

-- A read that succeeds goes on with what it read.
pub >>=-ok :
    {A B : Type 0} (m : Reader A) (f : A → Reader B) (b : Bytes) {a : A} {rest : Bytes}
    → m b ≡ ok (a, rest)
    → (m >>= f) b ≡ f a rest
>>=-ok {A} {B} m f b e =
    ap {B = Result (B × Bytes)} (λ r. elim r [ ok (a, rest) ↦ f a rest | err x ↦ err x ]) e

read_be-append :
    (k n : ℕ) (rest : Bytes)
    → length (be_bytes k n) ≡ k
    → be_value 0 (be_bytes k n) ≡ n
    → read_be k (be_bytes k n ++ rest) ≡ ok (n, rest)
unfolding read_be
read_be-append k n rest e v =
    >>=-ok (read_bytes k) (λ x. return (be_value 0 x)) (be_bytes k n ++ rest)
      (read_bytes-append k (be_bytes k n) rest e)
    ∙ ap (λ m. ok (m, rest)) v

pub read_be2-append :
    (n : ℕ) (rest : Bytes) → n < 65536 → read_be 2 (be_bytes 2 n ++ rest) ≡ ok (n, rest)
read_be2-append n rest h = read_be-append 2 n rest refl (omega arith)

pub read_be4-append :
    (n : ℕ) (rest : Bytes) → n < 0x1_0000_0000 → read_be 4 (be_bytes 4 n ++ rest) ≡ ok (n, rest)
read_be4-append n rest h = read_be-append 4 n rest refl (omega arith)

pub read_be8-append :
    (n : ℕ) (rest : Bytes)
    → n < 0x1_0000_0000_0000_0000
    → read_be 8 (be_bytes 8 n ++ rest) ≡ ok (n, rest)
read_be8-append n rest h = read_be-append 8 n rest refl (omega arith)
