-- ===== src/Core/Allocator/Live.antt =====
-- The allocators of registry.rs and mux.rs against the list of numbers that are in use.
use r_amqp.Common.{
  ℕ, ◌+◌, ◌≤◌, ◌≡◌, refl, arith, not, none, some, List, [], ◌∷◌, ◌==◌, ltb, if◌then◌else◌, total,
  retain, ==_iff, ltb, Bool-cases, leb, inl, inr, ==_refl,
}
use r_amqp.Core.Allocator.{Allocator, allocate, release, allocate_from}

abbrev pub is_number : ℕ → ℕ → ℕ
is_number n m = if m == n then 1 else 0

-- How often a number is in a list.
abbrev pub times : ℕ → List ℕ → ℕ
times n = total (is_number n)

-- The numbers below `next` are each free or in use, once, and no other number is.
pub record IsConsistent (a : Allocator) (live : List ℕ) : Type 0 where
  pub within : a.next ≤ a.max + 1
  pub split : (n : ℕ) → times n a.free + times n live ≡ (if ltb n a.next then 1 else 0)

-- What an allocation that succeeds says of its number.
abbrev pub Allocated : Allocator → List ℕ → ℕ → Allocator → Type 0
Allocated a live n a' = (n ≤ a.max) × (times n live ≡ 0) × IsConsistent a' (n ∷ live)

allocate_from-Allocated :
    (a : Allocator) (live free : List ℕ) (n : ℕ) (a' : Allocator)
    → a.free ≡ free
    → IsConsistent a live
    → allocate_from a free ≡ (some n, a')
    → Allocated a live n a'
unfolding allocate_from
allocate_from-Allocated a live [] n a' e c h = elim (Bool-cases (leb a.next a.max)) [
  | inl room ↦
      let en : a.next ≡ n = ground arith in
      let ea : record a { next = a.next + 1 } ≡ a' = ground arith in
      rw (← en, ← ea)
        (
          ground arith,
          ground (arith, c.split a.next),
          record { within = ground arith; split = λ m. ground (arith, c.split m, ==_iff a.next m) },
        )
  | inr full ↦ cc (rw full at h)
]
allocate_from-Allocated a live (m ∷ rest) n a' e c h =
    let en : m ≡ n = ground arith in
    let ea : record a { free = rest } ≡ a' = ground arith in
    let counted : (k : ℕ) → times k (m ∷ rest) + times k live ≡ (if ltb k a.next then 1 else 0) =
      λ k. rw e at (c.split k) in
    rw (← en, ← ea)
      (
        ground (arith, counted m, ==_refl m, c.within),
        ground (arith, counted m, ==_refl m),
        record { within = c.within; split = λ k. omega (arith, counted k) },
      )

-- When the numbers below the next fresh one are each free or in use, once, a number that is handed
-- out is within the limit and was not in use, and the numbers are again each free or in use.
pub allocate-Allocated :
    (a : Allocator) (live : List ℕ) (n : ℕ) (a' : Allocator)
    → IsConsistent a live
    → allocate a ≡ (some n, a')
    → Allocated a live n a'
unfolding allocate
allocate-Allocated a live n a' c h = allocate_from-Allocated a live a.free n a' refl c h

allocate_from-exhausted :
    (a : Allocator) (live free : List ℕ) (a' : Allocator) (n : ℕ)
    → a.free ≡ free
    → IsConsistent a live
    → allocate_from a free ≡ (none, a')
    → n ≤ a.max
    → times n live ≡ 1
unfolding allocate_from
allocate_from-exhausted a live [] a' n e c h le =
    let counted = rw e at (c.split n) in ground (arith, counted)
allocate_from-exhausted a live (m ∷ rest) a' n e c h le = cc

-- When the numbers below the next fresh one are each free or in use, once, an allocation fails
-- only if every number of the range is in use.
pub allocate-exhausted :
    (a : Allocator) (live : List ℕ) (a' : Allocator) (n : ℕ)
    → IsConsistent a live
    → allocate a ≡ (none, a')
    → n ≤ a.max
    → times n live ≡ 1
unfolding allocate
allocate-exhausted a live a' n c h le = allocate_from-exhausted a live a.free a' n refl c h le

abbrev pub without : ℕ → List ℕ → List ℕ
without n = retain (λ m. not (m == n))

pub times-without :
    (k n : ℕ) (live : List ℕ) → times k (without n live) ≡ (if k == n then 0 else times k live)
times-without k n [] = ground arith
times-without k n (m ∷ live) =
    ground (arith, times-without k n live, ==_iff m n, ==_iff m k, ==_iff k n)

-- When a number in use is released, the numbers below the next fresh one are still each free or in
-- use, once.
pub release-IsConsistent :
    (a : Allocator) (live : List ℕ) (n : ℕ)
    → IsConsistent a live
    → times n live ≡ 1
    → IsConsistent (release a n) (without n live)
unfolding release
release-IsConsistent a live n c h = record {
  within = c.within;
  split = λ k. ground (arith, c.split k, times-without k n live, ==_iff k n, ==_iff n k);
}

allocate_from-none :
    (a : Allocator) (free : List ℕ) (a' : Allocator) → allocate_from a free ≡ (none, a') → a' ≡ a
unfolding allocate_from
allocate_from-none a [] a' e = ground arith
allocate_from-none a (m ∷ rest) a' e = cc

-- An allocator that failed is as it was.
pub allocate-none : (a a' : Allocator) → allocate a ≡ (none, a') → a' ≡ a
unfolding allocate
allocate-none a a' e = allocate_from-none a a.free a' e
