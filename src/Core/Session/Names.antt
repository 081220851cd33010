-- ===== src/Core/Session/Names.antt =====
-- ramqp-core/src/session/state.rs: `link_handles`, the index of links by name and local role.
use r_amqp.Common.{
  ℕ, ◌≡◌, refl, arith, Bool, true, false, ◌&&◌, Option, none, some, List, [], ◌∷◌, if◌then◌else◌,
  ◌↔◌,
}
use r_amqp.Core.Performatives.{Role, sender, receiver}
use r_amqp.Core.Session.State.{Link, sending, receiving}
use Prim.Native.String.{String}
use text.Mathlib.Text.{◌==◌ as str_eq}
use text.Mathlib.TextEquality.{eq_iff}

abbrev pub Key : Type 0
Key = String × Role

abbrev pub Index : Type 0
Index = List (Key × ℕ)

unfoldable pub link_key : Link → Key
link_key (sending l) = (l.name, sender)
link_key (receiving l) = (l.name, receiver)

same_role : Role → Role → Bool
same_role sender sender = true
same_role sender receiver = false
same_role receiver sender = false
same_role receiver receiver = true

unfoldable pub same_key : Key → Key → Bool
unfolding same_role
same_key (n, r) (m, q) = str_eq n m && same_role r q

unfoldable pub get_key : Key → Index → Option ℕ
get_key k [] = none
get_key k ((j, h) ∷ m) = if same_key j k then some h else get_key k m

-- `HashMap::remove` on `link_handles`.
unfoldable pub remove_key : Key → Index → Index
remove_key k [] = []
remove_key k ((j, h) ∷ m) = if same_key j k then remove_key k m else (j, h) ∷ remove_key k m

-- `HashMap::insert` on `link_handles`.
unfoldable pub insert_key : Key → ℕ → Index → Index
unfolding remove_key
insert_key k h m = (k, h) ∷ remove_key k m

same_role_iff : (r q : Role) → (same_role r q ≡ true) ↔ (r ≡ q)
unfolding same_role
same_role_iff sender sender = (λ h. refl, λ h. refl)
same_role_iff sender receiver = (λ h. cc, λ h. cc)
same_role_iff receiver sender = (λ h. cc, λ h. cc)
same_role_iff receiver receiver = (λ h. refl, λ h. refl)

pub same_key_iff : (j k : Key) → (same_key j k ≡ true) ↔ (j ≡ k)
unfolding same_key
same_key_iff (n, r) (m, q) = ground (arith, eq_iff n m, same_role_iff r q)

pub get_key-remove_key :
    (j k : Key) (m : Index)
    → get_key j (remove_key k m) ≡ (if same_key k j then none else get_key j m)
unfolding get_key remove_key
get_key-remove_key j k [] = ground arith
get_key-remove_key j k ((i, h) ∷ m) =
    ground (arith, get_key-remove_key j k m, same_key_iff i k, same_key_iff i j, same_key_iff k j)

pub get_key-insert_key :
    (j k : Key) (h : ℕ) (m : Index)
    → get_key j (insert_key k h m) ≡ (if same_key k j then some h else get_key j m)
unfolding insert_key get_key
get_key-insert_key j k h m = ground (arith, get_key-remove_key j k m)
