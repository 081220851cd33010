-- ===== src/Core/Transport/Gather.antt =====
-- ramqp-core/src/transport/frame.rs: a gathered write against a buffer that holds the bodies itself.
use r_amqp.Common.{
  ℕ, ◌+◌, ◌-◌, ◌≤◌, ◌≡◌, refl, arith, ap, sym, ◌∙◌, inl, inr, Bool-cases, ltb, List, [], ◌∷◌, ◌++◌,
  length, take, drop, take-append, drop-append, take-none-left, drop-none-left, length-drop,
  append-nil, append_assoc,
}
use r_amqp.Core.Performatives.{Bytes}
use r_amqp.Core.Transport.Writing.{gather}

-- The offsets rise from a position to the length of the buffer.
abbrev pub IsOrdered : (pos : ℕ) → List (ℕ × Bytes) → (len : ℕ) → Type 0
IsOrdered pos [] len = pos ≤ len
IsOrdered pos ((off, body) ∷ bodies) len = (pos ≤ off) × IsOrdered off bodies len

IsOrdered-bound :
    (pos : ℕ) (bodies : List (ℕ × Bytes)) (len : ℕ) → IsOrdered pos bodies len → pos ≤ len
IsOrdered-bound pos [] len h = h
IsOrdered-bound pos ((off, body) ∷ bodies) len (low, h) =
    let r : off ≤ len = IsOrdered-bound off bodies len h in omega arith

pub IsOrdered-longer :
    (pos : ℕ) (bodies : List (ℕ × Bytes)) (len more : ℕ)
    → IsOrdered pos bodies len
    → IsOrdered pos bodies (len + more)
IsOrdered-longer pos [] len more h = omega arith
IsOrdered-longer pos ((off, body) ∷ bodies) len more (low, h) =
    (low, IsOrdered-longer off bodies len more h)

pub IsOrdered-last :
    (pos : ℕ) (bodies : List (ℕ × Bytes)) (len : ℕ) (body : Bytes)
    → IsOrdered pos bodies len
    → IsOrdered pos (bodies ++ ((len, body) ∷ [])) len
IsOrdered-last pos [] len body h = (h, omega arith)
IsOrdered-last pos ((off, b) ∷ bodies) len body (low, h) =
    (low, IsOrdered-last off bodies len body h)

-- A gathered write with the empty slices in place.
abbrev pub gather_all : (pos : ℕ) → List (ℕ × Bytes) → Bytes → Bytes
gather_all pos [] buf = drop pos buf
gather_all pos ((off, body) ∷ bodies) buf =
    take (off - pos) (drop pos buf) ++ (body ++ gather_all off bodies buf)

pub gather-all :
    (pos : ℕ) (bodies : List (ℕ × Bytes)) (buf : Bytes)
    → IsOrdered pos bodies (length buf)
    → gather pos bodies buf ≡ gather_all pos bodies buf
unfolding gather
gather-all pos [] buf h = elim (Bool-cases (ltb pos (length buf))) [
  | inl e ↦ rw e refl
  | inr e ↦ rw e (sym (drop-none-left pos buf (ground arith)))
]
gather-all pos ((off, body) ∷ bodies) buf (low, h) =
    let r : gather off bodies buf ≡ gather_all off bodies buf = gather-all off bodies buf h in
    elim (Bool-cases (ltb pos off)) [
      | inl e ↦ rw (e, r) refl
      | inr e ↦ let none_between : off - pos ≡ 0 = ground arith in rw (e, r, none_between) refl
    ]

pub gather_all-append :
    (pos : ℕ) (bodies : List (ℕ × Bytes)) (buf more : Bytes)
    → IsOrdered pos bodies (length buf)
    → gather_all pos bodies (buf ++ more) ≡ gather_all pos bodies buf ++ more
gather_all-append pos [] buf more h = drop-append pos buf more h
gather_all-append pos ((off, body) ∷ bodies) buf more (low, h) =
    let bound : off ≤ length buf = IsOrdered-bound off bodies (length buf) h in
    let size : length (drop pos buf) ≡ length buf - pos = length-drop pos buf in
    rw (drop-append pos buf more (omega arith)) (
      rw (take-append (off - pos) (drop pos buf) more (omega arith)) (
        rw (gather_all-append off bodies buf more h) (
          ap (λ b. take (off - pos) (drop pos buf) ++ b)
            (sym (append_assoc body (gather_all off bodies buf) more))
          ∙ sym (
              append_assoc (take (off - pos) (drop pos buf)) (body ++ gather_all off bodies buf)
                more))))

pub gather_all-last :
    (pos : ℕ) (bodies : List (ℕ × Bytes)) (buf body : Bytes)
    → IsOrdered pos bodies (length buf)
    → gather_all pos (bodies ++ ((length buf, body) ∷ [])) buf ≡ gather_all pos bodies buf ++ body
gather_all-last pos [] buf body h =
    let size : length (drop pos buf) ≡ length buf - pos = length-drop pos buf in
    rw (take-none-left (length buf - pos) (drop pos buf) (omega arith))
      (rw (drop-none-left (length buf) buf (omega arith)) (rw (append-nil body) refl))
gather_all-last pos ((off, b) ∷ bodies) buf body (low, h) =
    rw (gather_all-last off bodies buf body h) (
      ap (λ x. take (off - pos) (drop pos buf) ++ x)
        (sym (append_assoc b (gather_all off bodies buf) body))
      ∙ sym (append_assoc (take (off - pos) (drop pos buf)) (b ++ gather_all off bodies buf) body))
