-- ===== src/Core/Session/Splitting.antt =====
-- How state.rs splits a message into the payloads of its frames.
use native.Mathlib.Nat.{add-div_right, div-eq_of_lt}
use r_amqp.Core.Performatives.{Bytes}
use r_amqp.Common.{
  drop, refl, ℕ, ◌+◌, ◌≤◌, All, length, ◌-◌, ◌≡◌, Bool-cases, suc, ◌/◌, ◌∷◌, List, arith, leb, ap,
  append-nil, inl, length-take, zero, [], inr, take, ◌++◌, length-drop, ◌∙◌, take-append-drop, sym,
  ◌<◌, u32_max, max, is_empty, false,
}
use r_amqp.Core.Session.Sending.{chunks, payloads, frame_count}

abbrev pub concat : List Bytes → Bytes
concat [] = []
concat (c ∷ cs) = c ++ concat cs

chunks-concat :
    (fuel m : ℕ) (rest : Bytes) → 1 ≤ m → length rest ≤ fuel → concat (chunks fuel m rest) ≡ rest
unfolding chunks
chunks-concat zero m [] hm h = refl
chunks-concat zero m (b ∷ bs) hm h = ground arith
chunks-concat (suc fuel) m [] hm h = refl
chunks-concat (suc fuel) m (b ∷ bs) hm h =
    ap (λ x. take m (b ∷ bs) ++ x)
      (chunks-concat fuel m (drop m (b ∷ bs)) hm (omega (arith, length-drop m (b ∷ bs))))
    ∙ take-append-drop m (b ∷ bs)

pub payloads-some : (m : ℕ) (body : Bytes) → is_empty (payloads m body) ≡ false
unfolding payloads chunks
payloads-some m [] = ground arith
payloads-some m (b ∷ bs) = ground arith

-- The payloads of a message put together are its body.
pub payloads-concat : (m : ℕ) (body : Bytes) → 1 ≤ m → concat (payloads m body) ≡ body
unfolding payloads
payloads-concat m body hm = elim (Bool-cases (leb (length body) m)) [
  | inl fits ↦ rw fits (append-nil body)
  | inr over ↦ rw over (chunks-concat (length body) m body hm (omega arith))
]

chunks-All : (fuel m : ℕ) (rest : Bytes) → All (λ (c : Bytes). length c ≤ m) (chunks fuel m rest)
unfolding chunks
chunks-All zero m rest = tt
chunks-All (suc fuel) m [] = tt
chunks-All (suc fuel) m (b ∷ bs) =
    (omega (arith, length-take m (b ∷ bs)), chunks-All fuel m (drop m (b ∷ bs)))

-- Each payload fits a frame.
pub payloads-All : (m : ℕ) (body : Bytes) → All (λ (c : Bytes). length c ≤ m) (payloads m body)
unfolding payloads
payloads-All m body = elim (Bool-cases (leb (length body) m)) [
  | inl fits ↦ rw fits (ground arith, tt)
  | inr over ↦ rw over (chunks-All (length body) m body)
]

-- The quotient rounded up.
abbrev pub div_ceil : ℕ → ℕ → ℕ
div_ceil n m = (n + m - 1) / m

div_ceil-step : (n m : ℕ) → 1 ≤ m → 1 ≤ n → div_ceil n m ≡ suc (div_ceil (n - m) m)
div_ceil-step n m hm hn =
    let shift : n + m - 1 ≡ (n - 1) + m = omega arith in
    ap (λ x. x / m) shift ∙ add-div_right (n - 1) hm ∙ elim (Bool-cases (leb m n)) [
      | inl le ↦
          let back : n - 1 ≡ n - m + m - 1 = ground arith in omega (arith, ap (λ x. x / m) back)
      | inr gt ↦
          let gone : n - m + m - 1 < m = ground arith in
          let low : n - 1 < m = ground arith in omega (arith, div-eq_of_lt gone, div-eq_of_lt low)
    ]

div_ceil-zero : (m : ℕ) → 1 ≤ m → div_ceil 0 m ≡ 0
div_ceil-zero m hm = div-eq_of_lt (omega arith)

chunks-length :
    (fuel m : ℕ) (rest : Bytes)
    → 1 ≤ m
    → length rest ≤ fuel
    → length (chunks fuel m rest) ≡ div_ceil (length rest) m
unfolding chunks
chunks-length zero m [] hm h = sym (div_ceil-zero m hm)
chunks-length zero m (b ∷ bs) hm h = omega arith
chunks-length (suc fuel) m [] hm h = sym (div_ceil-zero m hm)
chunks-length (suc fuel) m (b ∷ bs) hm h =
    ap suc (
      chunks-length fuel m (drop m (b ∷ bs)) hm (omega (arith, length-drop m (b ∷ bs)))
      ∙ ap (λ n. div_ceil n m) (length-drop m (b ∷ bs)))
    ∙ sym (div_ceil-step (length (b ∷ bs)) m hm (omega arith))

div_ceil-fits : (n m : ℕ) → 1 ≤ m → n ≤ m → max (div_ceil n m) 1 ≡ 1
div_ceil-fits zero m hm h = omega (arith, div_ceil-zero m hm)
div_ceil-fits (suc n) m hm h =
    let gone : suc n - m ≡ 0 = omega arith in
    omega (
      arith,
      div_ceil-step (suc n) m hm (omega arith),
      ap (λ k. div_ceil k m) gone,
      div_ceil-zero m hm,
    )

div_ceil-positive : (n m : ℕ) → 1 ≤ m → m < n → 1 ≤ div_ceil n m
div_ceil-positive n m hm h = omega (arith, div_ceil-step n m hm (omega arith))

-- As many payloads as the count of frames that is checked against the window, for a body whose
-- count fits 32 bits.
pub payloads-frame_count :
    (m : ℕ) (body : Bytes)
    → 1 ≤ m
    → length (payloads m body) ≤ u32_max
    → length (payloads m body) ≡ frame_count m (length body)
unfolding payloads frame_count
payloads-frame_count m body hm hk = elim (Bool-cases (leb (length body) m)) [
  | inl fits ↦ rw fits (omega (arith, div_ceil-fits (length body) m hm (ground arith)))
  | inr over ↦
      let counted = chunks-length (length body) m body hm (omega arith) in
      let bound : length (chunks (length body) m body) ≤ u32_max = rw over at hk in
      rw over (omega (arith, counted, bound, div_ceil-positive (length body) m hm (ground arith)))
]
