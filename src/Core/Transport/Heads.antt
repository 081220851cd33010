-- ===== src/Core/Transport/Heads.antt =====
-- ramqp-core/src/transport/frame.rs: a buffer that begins with a whole frame, or with less than one.
use r_amqp.Common.{
  ◌/◌, ◌%◌, ℕ, ◌+◌, ◌*◌, ◌≤◌, ◌<◌, ◌≡◌, refl, arith, ◌∙◌, ap, inl, inr, true, false, Bool-cases,
  ltb, ◌++◌, length, take, drop, take-append, drop-append, take-none-left, drop-none-left,
  length-append, be_value,
}
use r_amqp.Core.Performatives.{Bytes}
use r_amqp.Core.Transport.Frame.{
  BodyCodec, needs_more, header, decode_typed, decode_whole, decode_frame,
}

pub take-exact : (xs ys : Bytes) → take (length xs) (xs ++ ys) ≡ xs
take-exact xs ys =
    take-append (length xs) xs ys (omega arith) ∙ take-none-left (length xs) xs (omega arith)

pub drop-exact : (xs ys : Bytes) → drop (length xs) (xs ++ ys) ≡ ys
drop-exact xs ys =
    drop-append (length xs) xs ys (omega arith)
    ∙ ap (λ b. b ++ ys) (drop-none-left (length xs) xs (omega arith))

module _ {P S : Type 0} (c : BodyCodec P) (d : BodyCodec S) where
  whole-decode :
      (ftype channel : ℕ) (content rest : Bytes)
      → ftype < 256
      → channel < 0x1_0000
      → decode_whole c d
          (8 + length content)
          (header ftype channel (length content) ++ content)
          rest
        ≡ decode_typed c d ftype channel content rest
  unfolding decode_whole header
  whole-decode ftype channel content rest f h =
      let small : ltb (8 + length content) 8 ≡ false = ground arith in
      let enough : ltb (length content) 0 ≡ false = ground arith in
      let same : (0 * 256 + channel / 256 % 256) * 256 + channel / 1 % 256 ≡ channel =
        omega arith in
      let same_type : 0 * 256 + ftype ≡ ftype = omega arith in
      rw small (rw enough (rw same (rw same_type refl)))

  frame-whole :
      (max size : ℕ) (b rest : Bytes)
      → be_value 0 (take 4 (b ++ rest)) ≡ size
      → size ≡ length b
      → 8 ≤ size
      → size ≤ max
      → decode_frame c d max (b ++ rest) ≡ decode_whole c d size b rest
  unfolding decode_frame
  frame-whole max size b rest e e' low high =
      let longer : length (b ++ rest) ≡ length b + length rest = length-append b rest in
      let header_there : ltb (length (b ++ rest)) 8 ≡ false = ground arith in
      let not_below : ltb size 8 ≡ false = ground arith in
      let not_above : ltb max size ≡ false = ground arith in
      let all_there : ltb (length (b ++ rest)) size ≡ false = ground arith in
      let front : take size (b ++ rest) ≡ b = rw e' (take-exact b rest) in
      let back : drop size (b ++ rest) ≡ rest = rw e' (drop-exact b rest) in
      rw header_there (rw e (rw not_below (rw not_above (rw all_there (rw front (rw back refl))))))

  pub frame-partial :
      (max size : ℕ) (b : Bytes)
      → (8 ≤ length b → be_value 0 (take 4 b) ≡ size)
      → 8 ≤ size
      → size ≤ max
      → length b < size
      → decode_frame c d max b ≡ needs_more
  unfolding decode_frame
  frame-partial max size b e low high short = elim (Bool-cases (ltb (length b) 8)) [
    | inl x ↦ rw x refl
    | inr x ↦
        let there : 8 ≤ length b = ground arith in
        let not_below : ltb size 8 ≡ false = ground arith in
        let not_above : ltb max size ≡ false = ground arith in
        let missing : ltb (length b) size ≡ true = ground arith in
        rw x (rw (e there) (rw not_below (rw not_above (rw missing refl))))
  ]

  pub header-size :
      (ftype channel : ℕ) (content : Bytes)
      → 8 + length content < 0x1_0000_0000
      → be_value 0 (take 4 (header ftype channel (length content) ++ content)) ≡ 8 + length content
  unfolding header
  header-size ftype channel content h = omega arith

  pub header-decode :
      (max ftype channel : ℕ) (content rest : Bytes)
      → ftype < 256
      → channel < 0x1_0000
      → 8 + length content ≤ max
      → max < 0x1_0000_0000
      → decode_frame c d max ((header ftype channel (length content) ++ content) ++ rest)
        ≡ decode_typed c d ftype channel content rest
  unfolding header
  header-decode max ftype channel content rest f h fits bound =
      frame-whole max (8 + length content) (header ftype channel (length content) ++ content) rest
        (header-size ftype channel content (omega arith)) (omega arith) (omega arith) fits
      ∙ whole-decode ftype channel content rest f h
