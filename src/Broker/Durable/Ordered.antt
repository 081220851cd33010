-- ===== src/Broker/Durable/Ordered.antt =====
-- A `BTreeMap` with integer keys: an association list in the order of the keys.
use r_amqp.Common.{ℕ, ◌≡◌, refl, arith, some, List, [], ◌∷◌, ltb, ◌==◌, if◌then◌else◌, get}

module _ {ℓ} {V : Type ℓ} where
  abbrev pub insert_ordered : ℕ → V → List (ℕ × V) → List (ℕ × V)
  insert_ordered k v [] = (k, v) ∷ []
  insert_ordered k v ((j, w) ∷ m) =
      let rest = insert_ordered k v m in
      if ltb k j then (k, v) ∷ (j, w) ∷ m else if j == k then (k, v) ∷ m else (j, w) ∷ rest

  pub get-insert_ordered :
      (i k : ℕ) (v : V) (m : List (ℕ × V))
      → get i (insert_ordered k v m) ≡ (if k == i then some v else get i m)
  get-insert_ordered i k v [] = refl
  get-insert_ordered i k v ((j, w) ∷ m) = ground (arith, get-insert_ordered i k v m)
