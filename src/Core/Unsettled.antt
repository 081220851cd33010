-- ===== src/Core/Unsettled.antt =====
-- ramqp-core/src/link/settlement.rs: the unsettled deliveries of a link, a `BTreeMap` by delivery id.
pub mod Ranges
use r_amqp.Common.{
  ℕ, Bool, true, false, not, ◌&&◌, Option, none, some, List, [], ◌∷◌, map, ltb, leb, ◌==◌,
  if◌then◌else◌, is_some, is_empty, retain, length, get, remove, contains_key,
}
use r_amqp.Core.Performatives.{Bytes, DeliveryState}

pub record UnsettledEntry : Type 0 where
  pub delivery_tag : Bytes
  pub state : Option DeliveryState
  pub settled : Bool

-- In ascending order of the ids.
abbrev pub UnsettledMap : Type 0
UnsettledMap = List (ℕ × UnsettledEntry)

-- `BTreeMap::insert`.
unfoldable pub insert_entry : ℕ → UnsettledEntry → UnsettledMap → UnsettledMap
insert_entry k e [] = (k, e) ∷ []
insert_entry k e ((j, f) ∷ m) =
    if k == j
    then (k, e) ∷ m
    else if ltb k j
    then (k, e) ∷ (j, f) ∷ m
    else (j, f) ∷ insert_entry k e m

-- `UnsettledMap::insert`.
unfoldable pub track : ℕ → Bytes → Option DeliveryState → UnsettledMap → UnsettledMap
track delivery_id tag state m =
    insert_entry delivery_id (record { delivery_tag = tag; state = state; settled = false }) m

-- `UnsettledMap::settle`: the entry that was removed, and what stays.
unfoldable pub settle_id : ℕ → UnsettledMap → Option UnsettledEntry × UnsettledMap
settle_id delivery_id m = (get delivery_id m, remove delivery_id m)

last_id : ℕ → UnsettledMap → ℕ
last_id k [] = k
last_id k ((j, e) ∷ m) = last_id j m

unfoldable pub id_range : UnsettledMap → Option (ℕ × ℕ)
unfolding last_id
id_range [] = none
id_range ((k, e) ∷ m) = some (k, last_id k m)

abbrev pub in_range : ℕ → ℕ → ℕ → Bool
in_range first last id = leb first id && leb id last

unfoldable pub ids_in : ℕ → ℕ → UnsettledMap → List ℕ
ids_in first last [] = []
ids_in first last ((k, e) ∷ m) =
    if in_range first last k then k ∷ ids_in first last m else ids_in first last m

-- Remove each id of a list.
unfoldable pub remove_ids : List ℕ → UnsettledMap → UnsettledMap
remove_ids [] m = m
remove_ids (id ∷ ids) m = remove_ids ids (remove id m)

unfoldable pub update_entry : Option DeliveryState → UnsettledEntry → UnsettledEntry
update_entry state e = record e {
  state = if is_some state then state else e.state;
  settled = false;
}

unfoldable pub update_range : ℕ → ℕ → Option DeliveryState → UnsettledMap → UnsettledMap
unfolding update_entry
update_range first last state [] = []
update_range first last state ((k, e) ∷ m) =
    (k, if in_range first last k then update_entry state e else e) ∷ update_range first last state m

-- The new map and the ids that are affected. `none` is the panic of `BTreeMap::range` on a range
-- whose start is above its end.
unfoldable pub apply_disposition :
    ℕ → ℕ → Option DeliveryState → Bool → UnsettledMap → Option (UnsettledMap × List ℕ)
apply_disposition first last state settled m =
    let ids = ids_in first last m in
    if ltb last first
    then none
    else some (if settled then remove_ids ids m else update_range first last state m, ids)

-- The form of `attach.unsettled`: the tags whose state is known, in the order of the ids.
unfoldable pub snapshot : UnsettledMap → List (Bytes × DeliveryState)
snapshot [] = []
snapshot ((k, e) ∷ m) = elim e.state [
  | none ↦ snapshot m
  | some s ↦ (e.delivery_tag, s) ∷ snapshot m
]
