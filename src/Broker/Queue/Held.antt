-- ===== src/Broker/Queue/Held.antt =====
-- The messages that a queue holds, weighed. A weight may count one id, or body bytes, so one law
-- about every weight says which messages are held and how many bytes they take.
use r_amqp.Common.{
  ℕ, ◌+◌, ◌≤◌, ◌≡◌, refl, none, some, List, [], ◌∷◌, arith, ◌==◌, if◌then◌else◌, total, All, get,
  remove, Option-cases, Bool-cases, inl, inr, length, remove-absent,
}
use r_amqp.Broker.Policy.{Body}
use r_amqp.Broker.Queue.State.{Stored, Unacked, Queue}
use r_amqp.Broker.Queue.Consume.{requeue_each}

abbrev pub Weight : Type 0
Weight = ℕ → Body → ℕ

abbrev pub weigh : Weight → Stored → ℕ
weigh w s = w s.id s.body

abbrev pub weigh_entry : Weight → ℕ × (Stored × ℕ) → ℕ
weigh_entry w (id, (s, owner)) = weigh w s

-- The weight of all that is ready or unacked.
abbrev pub held : Weight → Queue → ℕ
held w q = total (weigh w) q.ready + total (weigh_entry w) q.unacked

abbrev pub id_weight : ℕ → Weight
id_weight i id body = if id == i then 1 else 0

abbrev pub body_weight : Weight
body_weight id body = length body

abbrev pub one_weight : Weight
one_weight id body = 1

abbrev pub IsKeyed : Unacked → Type 0
IsKeyed = All (λ e. e.0 ≡ e.1.0.id)

-- How often an id is among the unacked messages.
abbrev pub unacked_count : ℕ → Unacked → ℕ
unacked_count i = total (weigh_entry (id_weight i))

pub get-uncounted : (i : ℕ) (u : Unacked) → IsKeyed u → unacked_count i u ≡ 0 → get i u ≡ none
get-uncounted i [] k h = refl
get-uncounted i ((j, (s, o)) ∷ u) k h = ground (arith, get-uncounted i u k.1)

pub remove-IsKeyed : (i : ℕ) (u : Unacked) → IsKeyed u → IsKeyed (remove i u)
remove-IsKeyed i [] k = k
remove-IsKeyed i ((j, (s, o)) ∷ u) k = ground (arith, remove-IsKeyed i u k.1)

-- What a removal takes out of the map, where the id is there at most once.
pub total-remove :
    (w : Weight) (i : ℕ) (u : Unacked) (s : Stored) (o : ℕ)
    → IsKeyed u
    → unacked_count i u ≤ 1
    → get i u ≡ some (s, o)
    → total (weigh_entry w) u ≡ weigh w s + total (weigh_entry w) (remove i u)
total-remove w i [] s o k h e = cc
total-remove w i ((j, (s', o')) ∷ u) s o k h e = elim (Bool-cases (j == i)) [
  | inl hit ↦ ground (arith, remove-absent i u, get-uncounted i u k.1)
  | inr miss ↦ ground (arith, total-remove w i u s o k.1)
]

total-remove-le :
    (w : Weight) (i : ℕ) (u : Unacked)
    → total (weigh_entry w) (remove i u) ≤ total (weigh_entry w) u
total-remove-le w i [] = omega arith
total-remove-le w i ((j, (s, o)) ∷ u) = ground (arith, total-remove-le w i u)

-- Requeuing keeps the weight of all that is held, and the map keyed by the messages' ids.
pub requeue_each-held :
    (w : Weight) (ids : List ℕ) (ready : List Stored) (u : Unacked)
    → IsKeyed u
    → ((i : ℕ) → unacked_count i u ≤ 1)
    → let r = requeue_each ids ready u in
      (total (weigh w) r.0 + total (weigh_entry w) r.1
        ≡ total (weigh w) ready + total (weigh_entry w) u)
      × IsKeyed r.1
unfolding requeue_each
requeue_each-held w [] ready u k h = (refl, k)
requeue_each-held w (id ∷ ids) ready u k h = elim (Option-cases (get id u)) [
  | inl e ↦ rw (e, requeue_each) (requeue_each-held w ids ready u k h)
  | inr ((s, o), e) ↦
      let (same, keyed) =
        requeue_each-held w ids (s ∷ ready) (remove id u) (remove-IsKeyed id u k)
          (λ i. omega (arith, h i, total-remove-le (id_weight i) id u)) in
      rw (e, requeue_each) (omega (arith, same, total-remove w id u s o k (h id) e), keyed)
]
