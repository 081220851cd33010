-- ===== src/Core/Codec/Value/Arrays.antt =====
-- ramqp-core/src/codec/value.rs: what the elements of an array decode to under the constructor that
-- they share.
use r_amqp.Common.{
  subst, ◌⊎◌, ◌≢◌, ==_refl, ℕ, suc, ◌≤◌, ◌≡◌, refl, arith, ap, sym, ◌∙◌, inl, inr, true, false,
  ◌==◌, [], ◌∷◌, ◌++◌, length, length-append,
}
use r_amqp.Core.Performatives.{Bytes}
use r_amqp.Core.Codec.Reading.{ok, read_u8}
use r_amqp.Core.Codec.Value.{
  Value, Values, cons, encode, elements, count, Kind, wide, kind_of, wide_body,
}
use r_amqp.Core.Codec.Value.Decode.{
  is_zero_width, max_zero_width_array, decode_value, decode_body, decode_n, decode_array,
  decode_elements,
}
use r_amqp.Core.Codec.Value.{under_descriptor, wide_body, has_ctor, element, shared, opening, inner}
use r_amqp.Core.Codec.Value.Decode.{is_zero_width, max_zero_width_array, ◌<$>◌, array_count_ok}
use r_amqp.Core.Codec.Value.Encodable.{
  IsEncodable, scalar, list_of, map_of, empty_array, array_of, described_as, nested_code, AllAlike,
  IsCounted, AllEncodable, nothing, also,
}
use r_amqp.Core.Codec.Value.Bodies.{code, scalar-kind, wide-decode}

-- What an element of a kind but described puts in an array.
abbrev stripped_of : Value → Bytes
stripped_of v = element (kind_of v) v (encode v) (inner v)

wide-stripped_of : (v : Value) (c : ℕ) → kind_of v ≡ wide c → stripped_of v ≡ wide_body v
unfolding element has_ctor
wide-stripped_of v c e = rw e (rw (ap (has_ctor c) e ∙ ==_refl c) refl)

wide-code : (v : Value) (c x : ℕ) → kind_of v ≡ wide c → code (kind_of v) x ≡ code (kind_of v) 0
unfolding code
wide-code v c x e = rw e refl

-- An element is read back by the body of its constructor, if its own encoding is decoded.
element-decode :
    {n : ℕ} {v : Value} (h : IsEncodable n v) (rest : Bytes)
    → kind_of v ≢ under_descriptor
    → decode_value n (encode v ++ rest) ≡ ok (v, rest)
    → decode_body n (code (kind_of v) (nested_code v)) (stripped_of v ++ rest) ≡ ok (v, rest)
unfolding kind_of code nested_code element encode decode_value read_u8 inner
element-decode (scalar {n} {v} h) rest p e =
    let k : kind_of v ≡ wide (code (kind_of v) 0) = (scalar-kind v h).0 in
    rw (wide-stripped_of v _ k) (rw (wide-code v _ (nested_code v) k) (wide-decode v n rest h))
element-decode (list_of a f c) rest p e = e
element-decode (map_of a f c) rest p e = e
element-decode empty_array rest p e = e
element-decode (array_of a l k f c) rest p e = e
element-decode (described_as d v) rest p e = elim (p refl) [ ]

pub element-read :
    {n : ℕ} (k : Kind) (c : ℕ) {v : Value} (h : IsEncodable n v) (rest : Bytes)
    → kind_of v ≡ k
    → nested_code v ≡ c
    → k ≢ under_descriptor
    → decode_value n (encode v ++ rest) ≡ ok (v, rest)
    → decode_body n (code k c) (element k v (encode v) (inner v) ++ rest) ≡ ok (v, rest)
element-read {n} k c {v} h rest e f p d =
    subst (λ x. decode_body n (code k x) (element k v (encode v) (inner v) ++ rest) ≡ ok (v, rest))
      f
      (subst
        (λ j.
          decode_body n (code j (nested_code v)) (element j v (encode v) (inner v) ++ rest)
          ≡ ok (v, rest))
        e (element-decode h rest (λ u. p (sym e ∙ u)) d))

-- All but null take a byte or more, and their constructors are no short forms.
element-shape :
    {n : ℕ} {v : Value} (h : IsEncodable n v)
    → kind_of v ≢ under_descriptor
    → (kind_of v ≡ wide 0x40)
      ⊎ ((0x50 ≤ code (kind_of v) (nested_code v)) × (1 ≤ length (stripped_of v)))
unfolding kind_of code nested_code element encode inner
element-shape (scalar {n} {v} h) p =
    let k : kind_of v ≡ wide (code (kind_of v) 0) = (scalar-kind v h).0 in
    rw (wide-stripped_of v _ k) (rw (wide-code v _ (nested_code v) k) ((scalar-kind v h).1))
element-shape (list_of a f c) p = inr (omega arith, omega arith)
element-shape (map_of a f c) p = inr (omega arith, omega arith)
element-shape empty_array p = inr (omega arith, omega arith)
element-shape (array_of a l k f c) p = inr (omega arith, omega arith)
element-shape (described_as d v) p = elim (p refl) [ ]

element-length :
    {n : ℕ} (k : Kind) (c : ℕ) {v : Value}
    → IsEncodable n v
    → kind_of v ≡ k
    → nested_code v ≡ c
    → k ≢ under_descriptor
    → k ≢ wide 0x40
    → 1 ≤ length (element k v (encode v) (inner v))
element-length k c {v} h e f p q = elim (element-shape h (λ u. p (sym e ∙ u))) [
  | inl z ↦ elim (q cc) [ ]
  | inr (low, size) ↦ subst (λ j. 1 ≤ length (element j v (encode v) (inner v))) e size
]

-- The elements that follow a shared constructor, against the count before them.
elements-length :
    {n : ℕ} (k : Kind) (c : ℕ) {vs : Values}
    → AllEncodable n vs
    → AllAlike k c vs
    → k ≢ under_descriptor
    → k ≢ wide 0x40
    → count vs ≤ length (elements k vs)
unfolding elements
elements-length k c nothing a p q = omega arith
elements-length k c (also {n} {v} {vs} h hs) a p q =
    let size : 1 ≤ length (element k v (encode v) (inner v)) = element-length k c h a.0 a.1 p q in
    let more : count vs ≤ length (elements k vs) = elements-length k c hs a.2 p q in
    rw (length-append (element k v (encode v) (inner v)) (elements k vs)) (omega arith)

-- The count that the encoder writes passes the decoder's check.
pub array_count_ok-elements :
    {n : ℕ} {v : Value} {vs : Values} (h : AllEncodable n (cons v vs))
    → AllAlike (kind_of v) (nested_code v) vs
    → IsCounted (kind_of v) (suc (count vs))
    → kind_of v ≢ under_descriptor
    → array_count_ok
        (suc (count vs))
        (code (kind_of v) (nested_code v))
        (length (elements (kind_of v) (cons v vs)))
      ≡ true
unfolding array_count_ok is_zero_width code
array_count_ok-elements (also {n} {v} {vs} h hs) a k p = elim (element-shape h p) [
  | inl z ↦
      let few : suc (count vs) ≤ max_zero_width_array =
        subst (λ j. IsCounted j (suc (count vs))) z k refl in
      subst
        (λ j.
          array_count_ok (suc (count vs)) (code j (nested_code v)) (length (elements j (cons v vs)))
          ≡ true)
        (sym z) (ground arith)
  | inr (low, size) ↦
      let some_width : is_zero_width (code (kind_of v) (nested_code v)) ≡ false = ground arith in
      let enough : suc (count vs) ≤ length (elements (kind_of v) (cons v vs)) =
        elements-length (kind_of v) (nested_code v) (also h hs) (refl, refl, a) p
          (λ z.
            let low' : 0x50 ≤ 0x40 = subst (λ j. 0x50 ≤ code j (nested_code v)) z low in
            omega arith) in
      rw some_width (ground arith)
]

pub shared-code :
    {n : ℕ} {v : Value}
    → IsEncodable n v
    → kind_of v ≢ under_descriptor
    → shared (kind_of v) (encode v) (opening v) ≡ code (kind_of v) (nested_code v) ∷ []
unfolding shared code kind_of nested_code encode opening
shared-code (scalar {n} {v} h) p =
    subst (λ j. shared j (encode v) (opening v) ≡ code j (nested_code v) ∷ [])
      (sym (scalar-kind v h).0) refl
shared-code (list_of a f c) p = refl
shared-code (map_of a f c) p = refl
shared-code empty_array p = refl
shared-code (array_of a l k f c) p = refl
shared-code (described_as d v) p = elim (p refl) [ ]

code-nonzero :
    {n : ℕ} {v : Value}
    → IsEncodable n v
    → kind_of v ≢ under_descriptor
    → (code (kind_of v) (nested_code v) == 0x00) ≡ false
unfolding code
code-nonzero {n} {v} h p = elim (element-shape h p) [
  | inl z ↦ subst (λ j. (code j (nested_code v) == 0x00) ≡ false) (sym z) refl
  | inr (low, size) ↦ ground arith
]

-- An array's bytes are decoded as its elements are under the constructor.
pub decode_array-elements :
    {n : ℕ} {v : Value} {vs : Values} (h : AllEncodable n (cons v vs))
    → AllAlike (kind_of v) (nested_code v) vs
    → IsCounted (kind_of v) (suc (count vs))
    → kind_of v ≢ under_descriptor
    → decode_array
        (decode_body n)
        (suc (count vs))
        (shared (kind_of v) (encode v) (opening v) ++ elements (kind_of v) (cons v vs))
      ≡ decode_n
          ((λ x. x) <$> decode_body n (code (kind_of v) (nested_code v)))
          (suc (count vs))
          (elements (kind_of v) (cons v vs))
unfolding decode_array decode_elements read_u8
decode_array-elements (also {n} {v} {vs} h hs) a k p =
    rw (shared-code h p)
      (rw (code-nonzero h p) (rw (array_count_ok-elements (also h hs) a k p) refl))
