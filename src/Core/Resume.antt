-- ===== src/Core/Resume.antt =====
-- ramqp-core/src/link/resume.rs: what to do with each unsettled delivery when a link is resumed.
use r_amqp.Common.{
  ◌≢◌, ◌⊎◌, inl, inr, ap, ==_iff, Bool-cases, ℕ, ◌≡◌, refl, arith, Bool, true, false, ◌&&◌, Option,
  none, some, List, [], ◌∷◌, ◌==◌, if◌then◌else◌,
}
use r_amqp.Core.Performatives.{Bytes, DeliveryState, is_terminal}
use r_amqp.Core.Outcomes.{is_outcome, is_terminal-is_outcome}
use r_amqp.Core.Unsettled.{UnsettledMap}

pub data ResumeAction : Type 0 where
  resend resume abort : ResumeAction
  settle : DeliveryState → ResumeAction

unfoldable pub sender_resume_action : Bool → Option DeliveryState → ResumeAction
sender_resume_action local_settled (some state) = if is_terminal state then settle state else resume
sender_resume_action true none = abort
sender_resume_action false none = resend

-- Equality of byte strings.
abbrev pub bytes_eq : Bytes → Bytes → Bool
bytes_eq [] [] = true
bytes_eq [] (b ∷ bs) = false
bytes_eq (a ∷ as') [] = false
bytes_eq (a ∷ as') (b ∷ bs) = a == b && bytes_eq as' bs

-- `OrderedMap::get` on the peer's unsettled map.
unfoldable pub get_tag : Bytes → List (Bytes × DeliveryState) → Option DeliveryState
get_tag tag [] = none
get_tag tag ((t, s) ∷ m) = if bytes_eq t tag then some s else get_tag tag m

unfoldable pub reconcile : UnsettledMap → List (Bytes × DeliveryState) → List (ℕ × ResumeAction)
reconcile [] remote = []
reconcile ((id, e) ∷ m) remote =
    (id, sender_resume_action e.settled (get_tag e.delivery_tag remote)) ∷ reconcile m remote

-- What to do with a delivery, by whether this end has settled it and by what the peer knows of it.
pub record IsActionFor (local_settled : Bool) (known : Option DeliveryState) (action : ResumeAction)
    : Type 0 where
  pub forgotten : known ≡ none → local_settled ≡ true → action ≡ abort
  pub unknown : known ≡ none → local_settled ≡ false → action ≡ resend
  pub underway : (st : DeliveryState) → known ≡ some st → is_outcome st ≡ false → action ≡ resume
  pub finished : (st : DeliveryState) → known ≡ some st → is_outcome st ≡ true → action ≡ settle st

-- What the first entry of the peer's map that has the tag says, or none where no entry has it.
abbrev pub IsKnown : Bytes → List (Bytes × DeliveryState) → Option DeliveryState → Type 0
IsKnown tag [] known = known ≡ none
IsKnown tag ((t, s) ∷ remote) known =
    ((t ≡ tag) × (known ≡ some s)) ⊎ ((t ≢ tag) × IsKnown tag remote known)

bytes_eq_same : (a b : Bytes) → bytes_eq a b ≡ true → a ≡ b
bytes_eq_same [] [] h = refl
bytes_eq_same [] (y ∷ b) h = cc
bytes_eq_same (x ∷ a) [] h = cc
bytes_eq_same (x ∷ a) (y ∷ b) h =
    let rest : a ≡ b = bytes_eq_same a b (ground (arith, h)) in
    let first : x ≡ y = ground (arith, h, ==_iff x y) in cc

bytes_eq_refl : (a : Bytes) → bytes_eq a a ≡ true
bytes_eq_refl [] = refl
bytes_eq_refl (x ∷ a) = ground (arith, bytes_eq_refl a, ==_iff x x)

get_tag-IsKnown :
    (tag : Bytes) (remote : List (Bytes × DeliveryState)) → IsKnown tag remote (get_tag tag remote)
unfolding get_tag
get_tag-IsKnown tag [] = refl
get_tag-IsKnown tag ((t, s) ∷ remote) = elim (Bool-cases (bytes_eq t tag)) [
  | inl same ↦ inl (bytes_eq_same t tag same, rw same refl)
  | inr apart ↦ inr (
    (λ e. absurd (ground (arith, apart, ap (λ x. bytes_eq x tag) e, bytes_eq_refl tag))),
    rw apart (get_tag-IsKnown tag remote),
  )
]

-- One action for each delivery, in the order of the deliveries, and no other action.
abbrev pub AreActions :
    List (Bytes × DeliveryState) → UnsettledMap → List (ℕ × ResumeAction) → Type 0
AreActions remote [] [] = Unit {0}
AreActions remote [] (action ∷ actions) = ⊥
AreActions remote (entry ∷ m) [] = ⊥
AreActions remote ((id, e) ∷ m) ((id', action) ∷ actions) =
    (id' ≡ id)
    × ((known : Option DeliveryState) × IsKnown e.delivery_tag remote known
        × IsActionFor e.settled known action)
    × AreActions remote m actions

sender_resume_action-IsActionFor :
    (local_settled : Bool) (known : Option DeliveryState)
    → IsActionFor local_settled known (sender_resume_action local_settled known)
unfolding sender_resume_action
sender_resume_action-IsActionFor true none = record {
  forgotten = λ _ _. refl;
  unknown = λ _ h. absurd (ground (arith, h));
  underway = λ st e. absurd (ground (arith, e));
  finished = λ st e. absurd (ground (arith, e));
}
sender_resume_action-IsActionFor false none = record {
  forgotten = λ _ h. absurd (ground (arith, h));
  unknown = λ _ _. refl;
  underway = λ st e. absurd (ground (arith, e));
  finished = λ st e. absurd (ground (arith, e));
}
sender_resume_action-IsActionFor local_settled (some s) = record {
  forgotten = λ e. absurd (ground (arith, e));
  unknown = λ e. absurd (ground (arith, e));
  underway = λ st e more. ground (arith, e, more, is_terminal-is_outcome st);
  finished = λ st e final. ground (arith, e, final, is_terminal-is_outcome st);
}

-- The actions are one for each tracked delivery, in the order of the map, and no other. The first entry
-- of the peer's map with the delivery's tag decides: where there is none, resend, or abort if this end
-- has settled; resume where its state is no outcome; settle with the outcome that it has.
pub reconcile-AreActions :
    (m : UnsettledMap) (remote : List (Bytes × DeliveryState))
    → AreActions remote m (reconcile m remote)
unfolding reconcile
reconcile-AreActions [] remote = tt
reconcile-AreActions ((id, e) ∷ m) remote = (
  refl,
  (
    get_tag e.delivery_tag remote,
    get_tag-IsKnown e.delivery_tag remote,
    sender_resume_action-IsActionFor e.settled (get_tag e.delivery_tag remote),
  ),
  reconcile-AreActions m remote,
)
