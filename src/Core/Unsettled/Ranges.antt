-- ===== src/Core/Unsettled/Ranges.antt =====
-- What a disposition does to the unsettled map of settlement.rs.
use r_amqp.Core.Performatives.{DeliveryState}
use mathlib.Core.Option
use r_amqp.Core.Unsettled.{
  UnsettledMap, ids_in, remove_ids, UnsettledEntry, in_range, apply_disposition, update_range,
  update_entry,
}
use r_amqp.Common.{
  ◌≤◌, ◌<◌, ◌⊎◌, sym, ap, subst, ◌∙◌, ◌&&◌, ℕ, ◌≡◌, refl, arith, Bool, true, false, Option, none,
  some, List, [], ◌∷◌, get, remove, ◌==◌, if◌then◌else◌, get-remove, ==_iff, contains_key,
}

-- Whether an id is in a list.
abbrev pub elem : ℕ → List ℕ → Bool
elem i [] = false
elem i (j ∷ js) = if j == i then true else elem i js

get-remove_ids :
    (i : ℕ) (ids : List ℕ) (m : UnsettledMap)
    → get i (remove_ids ids m) ≡ (if elem i ids then none else get i m)
unfolding remove_ids
get-remove_ids i [] m = refl
get-remove_ids i (j ∷ js) m =
    ground (arith, get-remove_ids i js (remove j m), get-remove i j m, ==_iff i j, ==_iff j i)

elem-ids_in :
    (first last i : ℕ) (m : UnsettledMap)
    → elem i (ids_in first last m) ≡ (in_range first last i && contains_key i m)
unfolding ids_in
elem-ids_in first last i [] = ground arith
elem-ids_in first last i ((j, e) ∷ m) = ground (arith, elem-ids_in first last i m, ==_iff j i)

get-update_range :
    (first last i : ℕ) (state : Option DeliveryState) (m : UnsettledMap)
    → get i (update_range first last state m)
      ≡ (if in_range first last i then Option.map (update_entry state) (get i m) else get i m)
unfolding update_range
get-update_range first last i state [] = ground arith
get-update_range first last i state ((j, e) ∷ m) =
    ground (arith, get-update_range first last i state m, ==_iff j i)

-- The entries after a disposition, by the update of each entry.
pub apply_disposition-update_entry :
    (first last : ℕ) (state : Option DeliveryState) (settled : Bool) (m m' : UnsettledMap)
    (ids : List ℕ) (i : ℕ)
    → apply_disposition first last state settled m ≡ some (m', ids)
    → (elem i ids ≡ (in_range first last i && contains_key i m))
      × (get i m' ≡ (
          if in_range first last i
          then (if settled then none else Option.map (update_entry state) (get i m))
          else get i m))
unfolding apply_disposition
apply_disposition-update_entry first last state true m m' ids i h =
    ground (arith, elem-ids_in first last i m, get-remove_ids i (ids_in first last m) m)
apply_disposition-update_entry first last state false m m' ids i h =
    ground (arith, elem-ids_in first last i m, get-update_range first last i state m)

-- What a disposition makes of what the map holds for an id of its range.
pub record IsDisposed (state : Option DeliveryState) (settled : Bool)
    (before after : Option UnsettledEntry) : Type 0 where
  pub dropped : settled ≡ true → after ≡ none
  pub absent : before ≡ none → after ≡ none
  pub taken :
      settled ≡ false
      → (st : DeliveryState) → state ≡ some st
      → (e : UnsettledEntry) → before ≡ some e
      → after ≡ some (record { delivery_tag = e.delivery_tag; state = some st; settled = false })
  pub kept :
      settled ≡ false
      → state ≡ none
      → (e : UnsettledEntry) → before ≡ some e
      → after ≡ some (record { delivery_tag = e.delivery_tag; state = e.state; settled = false })

updated-IsDisposed :
    (state : Option DeliveryState) (settled : Bool) (o : Option UnsettledEntry)
    → IsDisposed state settled o (if settled then none else Option.map (update_entry state) o)
unfolding update_entry
updated-IsDisposed state true o = record {
  dropped = λ _. refl;
  absent = λ _. refl;
  taken = λ h. absurd (ground (arith, h));
  kept = λ h. absurd (ground (arith, h));
}
updated-IsDisposed state false o = record {
  dropped = λ h. absurd (ground (arith, h));
  absent = λ e. ap (λ x. Option.map (update_entry state) x) e;
  taken = λ h st e x e'. rw (e, e') refl;
  kept = λ h e x e'. rw (e, e') refl;
}

-- A disposition on a range that it accepts affects exactly the tracked ids of the range. A settled one
-- drops them; one that does not settle makes the state that it carries, if any, that of each of them,
-- and leaves them their tags, unsettled on this end. Every other delivery is as before.
pub apply_disposition-get :
    (first last : ℕ) (state : Option DeliveryState) (settled : Bool) (m m' : UnsettledMap)
    (ids : List ℕ) (i : ℕ)
    → apply_disposition first last state settled m ≡ some (m', ids)
    → ((first ≤ i) × (i ≤ last)
        → (elem i ids ≡ contains_key i m) × IsDisposed state settled (get i m) (get i m'))
      × ((i < first) ⊎ (last < i) → (elem i ids ≡ false) × (get i m' ≡ get i m))
apply_disposition-get first last state settled m m' ids i h =
    let (e, e') = apply_disposition-update_entry first last state settled m m' ids i h in
    (
      λ (low, high).
          let inside : in_range first last i ≡ true = ground (arith, low, high) in
          (
            ground (arith, e, inside),
            subst (IsDisposed state settled (get i m)) (sym (e' ∙ ap (λ b. entry_after b) inside))
                (updated-IsDisposed state settled (get i m)),
          ),
      λ apart.
          let outside : in_range first last i ≡ false = ground (arith, apart) in
          (ground (arith, e, outside), e' ∙ ap (λ b. entry_after b) outside),
    )
  where
    entry_after : Bool → Option UnsettledEntry
    entry_after b =
        if b then (if settled then none else Option.map (update_entry state) (get i m)) else get i m
