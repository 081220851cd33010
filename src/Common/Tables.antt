-- ===== src/Common/Tables.antt =====
-- A table of a database whose keys are pairs of numbers, as an association list. Lookup finds the
-- first row, a write replaces what the key had, and a removal drops every row that its test picks.
use Prim.Native.Nat.{ℕ}
use mathlib.Core.Path.{◌≡◌}
use mathlib.Core.Bool.{Bool, not, ◌&&◌}
use mathlib.Core.List.{List, [], ◌∷◌}
use mathlib.Core.Option.{Option, none, some}
use native.Mathlib.Omega.{arith}
use r_amqp.Common.Tests.{◌==◌, if◌then◌else◌}

abbrev pub Table {ℓ} : Type ℓ → Type ℓ
Table V = List ((ℕ × ℕ) × V)

module _ {ℓ} {V : Type ℓ} where
  abbrev pub find : (a b : ℕ) → Table V → Option V
  find a b [] = none
  find a b (((c, d), v) ∷ t) = if c == a && d == b then some v else find a b t

  -- `retain`, by a test on the keys.
  abbrev pub retain_keys : (ℕ → ℕ → Bool) → Table V → Table V
  retain_keys p [] = []
  retain_keys p (((c, d), v) ∷ t) =
      let rest = retain_keys p t in if p c d then ((c, d), v) ∷ rest else rest

  abbrev pub delete : (a b : ℕ) → Table V → Table V
  delete a b = retain_keys (λ c d. not (c == a && d == b))

  abbrev pub put : (a b : ℕ) → V → Table V → Table V
  put a b v t = ((a, b), v) ∷ delete a b t

  pub find-retain_keys :
      (p : ℕ → ℕ → Bool) (a b : ℕ) (t : Table V)
      → find a b (retain_keys p t) ≡ (if p a b then find a b t else none)
  find-retain_keys p a b [] = ground arith
  find-retain_keys p a b (((c, d), v) ∷ t) = ground (arith, find-retain_keys p a b t)

  pub find-delete :
      (a b c d : ℕ) (t : Table V)
      → find a b (delete c d t) ≡ (if a == c && b == d then none else find a b t)
  find-delete a b c d t = ground (arith, find-retain_keys (λ x y. not (x == c && y == d)) a b t)

  pub find-put :
      (a b c d : ℕ) (v : V) (t : Table V)
      → find a b (put c d v t) ≡ (if a == c && b == d then some v else find a b t)
  find-put a b c d v t = ground (arith, find-delete a b c d t)
