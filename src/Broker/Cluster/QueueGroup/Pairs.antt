-- ===== src/Broker/Cluster/QueueGroup/Pairs.antt =====
-- ramqp-broker/src/cluster/queue_group.rs: each message with the body that was enqueued, and the
-- references that the messages hold on the spill store.
use r_amqp.Common.{
  ℕ, ◌+◌, ◌≤◌, ◌≡◌, refl, ap, subst, ◌∙◌, inl, inr, arith, Bool-cases, Option, none, some, List, [],
  ◌∷◌, ◌==◌, get, remove, if_elim,
}
use r_amqp.Broker.Policy.{Body}
use r_amqp.Broker.Cluster.Paging.{SpillRef, Segment, pin}
use r_amqp.Broker.Cluster.Paging.Outstanding.{Held, count, Within, Reads, Good}
use r_amqp.Broker.Cluster.Paging.Calls.{Fewer, Kept-Fewer, cost_of, release-Good, unpin-Good}
use r_amqp.Broker.Cluster.QueueGroup.{
  StoredBody, resident, spilled, ReplicatedMessage, QueuePaging, release_in, pin_in, unpin_in,
}
use r_amqp.Broker.Cluster.QueueGroup.Ledger.{Entry}

abbrev pub Pairs : Type 0
Pairs = List (ℕ × (ReplicatedMessage × Body))

abbrev pub messages_of : Pairs → List (ℕ × ReplicatedMessage)
messages_of [] = []
messages_of ((id, (m, b)) ∷ z) = (id, m) ∷ messages_of z

abbrev pub entry_of : ReplicatedMessage × Body → Entry
entry_of (m, b) = record { content = b; attempts = m.failures; since_ms = m.enqueued_ms }

abbrev pub entries_of : Pairs → List (ℕ × Entry)
entries_of [] = []
entries_of ((id, (m, b)) ∷ z) = (id, entry_of (m, b)) ∷ entries_of z

abbrev pub message_in : Option (ReplicatedMessage × Body) → Option ReplicatedMessage
message_in none = none
message_in (some (m, b)) = some m

abbrev pub entry_in : Option (ReplicatedMessage × Body) → Option Entry
entry_in none = none
entry_in (some (m, b)) = some (entry_of (m, b))

pub get-messages_of : (id : ℕ) (z : Pairs) → get id (messages_of z) ≡ message_in (get id z)
get-messages_of id [] = refl
get-messages_of id ((j, (m, b)) ∷ z) = ground (arith, get-messages_of id z)

pub get-entries_of : (id : ℕ) (z : Pairs) → get id (entries_of z) ≡ entry_in (get id z)
get-entries_of id [] = refl
get-entries_of id ((j, (m, b)) ∷ z) = ground (arith, get-entries_of id z)

pub remove-messages_of :
    (id : ℕ) (z : Pairs) → remove id (messages_of z) ≡ messages_of (remove id z)
remove-messages_of id [] = refl
remove-messages_of id ((j, (m, b)) ∷ z) = ground (arith, remove-messages_of id z)

pub remove-entries_of : (id : ℕ) (z : Pairs) → remove id (entries_of z) ≡ entries_of (remove id z)
remove-entries_of id [] = refl
remove-entries_of id ((j, (m, b)) ∷ z) = ground (arith, remove-entries_of id z)

-- The references of a body and those behind it.
abbrev pub holding : StoredBody → Body → Held → Held
holding (resident c) b held = held
holding (spilled r) b held = (r, b) ∷ held

abbrev pub held_by : Pairs → Held
held_by [] = []
held_by ((id, (m, b)) ∷ z) = holding m.body b (held_by z)

-- A resident body is the one that was enqueued.
abbrev pub IsSame : StoredBody → Body → Type 0
IsSame (resident c) b = c ≡ b
IsSame (spilled r) b = Unit {0}

abbrev pub AllSame : Pairs → Type 0
AllSame [] = Unit {0}
AllSame ((id, (m, b)) ∷ z) = IsSame m.body b × AllSame z

pub AllSame-remove : (id : ℕ) (z : Pairs) → AllSame z → AllSame (remove id z)
AllSame-remove id [] h = tt
AllSame-remove id ((j, (m, b)) ∷ z) (h, hs) =
    if_elim AllSame (λ v. v) (j == id) (remove id z) ((j, (m, b)) ∷ remove id z)
      (AllSame-remove id z hs) (h, AllSame-remove id z hs)

pub AllSame-get :
    (id : ℕ) (z : Pairs) (m : ReplicatedMessage) (b : Body)
    → get id z ≡ some (m, b)
    → AllSame z
    → IsSame m.body b
AllSame-get id [] m b e h = absurd (ground (arith, e))
AllSame-get id ((j, (m', b')) ∷ z) m b e (h, hs) = elim (Bool-cases (j == id)) [
  | inl same ↦
      let at : m' ≡ m = ground (arith, e, same) in
      let at' : b' ≡ b = ground (arith, e, same) in
      subst (λ x. IsSame x.body b) at (subst (λ y. IsSame m'.body y) at' h)
  | inr other ↦ AllSame-get id z m b (ground (arith, e, other)) hs
]

module _ (k : ℕ) where
  abbrev pub cost_in : StoredBody → ℕ
  cost_in (resident c) = 0
  cost_in (spilled r) = cost_of k r

  abbrev pub cost_at : Option (ReplicatedMessage × Body) → ℕ
  cost_at none = 0
  cost_at (some (m, b)) = cost_in m.body

  count-holding :
      (s : StoredBody) (b : Body) (held : Held)
      → count k (holding s b held) ≡ cost_in s + count k held
  count-holding (resident c) b held = ground arith
  count-holding (spilled r) b held = refl

  Within-holding :
      (s : StoredBody) (b : Body) (held : Held) (g : Option Segment)
      → Within k (holding s b held) g
      → Within k held g
  Within-holding (resident c) b held g h = h
  Within-holding (spilled r) b held g (h, hs) = hs

  Within-held_again :
      (s : StoredBody) (b : Body) (held held' : Held) (g : Option Segment)
      → (Within k held g → Within k held' g)
      → Within k (holding s b held) g
      → Within k (holding s b held') g
  Within-held_again (resident c) b held held' g f h = f h
  Within-held_again (spilled r) b held held' g f (h, hs) = (h, f hs)

  count-removed :
      (id : ℕ) (z : Pairs)
      → count k (held_by (remove id z)) + cost_at (get id z) ≤ count k (held_by z)
  count-removed id [] = omega arith
  count-removed id ((j, (m, b)) ∷ z) = ground (
    arith,
    count-removed id z,
    count-holding m.body b (held_by z),
    count-holding m.body b (held_by (remove id z)),
  )

  Within-removed :
      (id : ℕ) (z : Pairs) (g : Option Segment)
      → Within k (held_by z) g
      → Within k (held_by (remove id z)) g
  Within-removed id [] g h = tt
  Within-removed id ((j, (m, b)) ∷ z) g h =
      if_elim (λ (y : Pairs). Within k (held_by y) g) (λ v. v) (j == id) (remove id z)
        ((j, (m, b)) ∷ remove id z)
        (Within-removed id z g (Within-holding m.body b (held_by z) g h))
        (Within-held_again m.body b (held_by z) (held_by (remove id z)) g (Within-removed id z g) h)

  -- A removed message no longer holds what it held.
  pub Fewer-removed :
      (id : ℕ) (z : Pairs) (m : ReplicatedMessage) (b : Body)
      → get id z ≡ some (m, b)
      → Fewer k (cost_in m.body) (held_by (remove id z)) (held_by z)
  Fewer-removed id z m b e = (ground (arith, count-removed id z, e), Within-removed id z)

  -- A body that takes the place of what is removed.
  pub Fewer-replaced :
      (id : ℕ) (z : Pairs) (s : StoredBody) (b : Body)
      → Fewer k 0 (holding s b (held_by (remove id z))) (holding s b (held_by z))
  Fewer-replaced id z s b = (
    ground (
      arith,
      count-removed id z,
      count-holding s b (held_by z),
      count-holding s b (held_by (remove id z)),
    ),
    λ g. Within-held_again s b (held_by z) (held_by (remove id z)) g (Within-removed id z g),
  )

  pub Reads-get :
      (id : ℕ) (z : Pairs) (m : ReplicatedMessage) (b : Body) (r : SpillRef) (g : Option Segment)
      → get id z ≡ some (m, b)
      → m.body ≡ spilled r
      → r.segment ≡ k
      → Within k (held_by z) g
      → Reads k r b g
  Reads-get id [] m b r g e at same h = absurd (ground (arith, e))
  Reads-get id ((j, (m', b')) ∷ z) m b r g e at same h = elim (Bool-cases (j == id)) [
    | inl here ↦
        let em : m' ≡ m = ground (arith, e, here) in
        let eb : b' ≡ b = ground (arith, e, here) in
        (subst (λ y. Within k (holding (spilled r) y (held_by z)) g) eb
            (subst (λ x. Within k (holding x b' (held_by z)) g) (ap (λ x. x.body) em ∙ at) h)).0
          same
    | inr other ↦
        Reads-get id z m b r g (ground (arith, e, other)) at same
          (Within-holding m'.body b' (held_by z) g h)
  ]

  Within-kept :
      (id : ℕ) (z : Pairs) (m : ReplicatedMessage) (b : Body) (s : StoredBody) (g : Option Segment)
      → get id z ≡ some (m, b)
      → m.body ≡ s
      → Within k (held_by z) g
      → Within k (holding s b (held_by (remove id z))) g
  Within-kept id z m b (resident c) g e at h = Within-removed id z g h
  Within-kept id z m b (spilled r) g e at h =
      ((λ same. Reads-get id z m b r g e at same h), Within-removed id z g h)

  -- A message that is put back holds what it held.
  pub Fewer-kept :
      (id : ℕ) (z : Pairs) (m : ReplicatedMessage) (b : Body)
      → get id z ≡ some (m, b)
      → Fewer k 0 (holding m.body b (held_by (remove id z))) (held_by z)
  Fewer-kept id z m b e = (
    ground (arith, count-removed id z, e, count-holding m.body b (held_by (remove id z))),
    λ g. Within-kept id z m b m.body g e refl,
  )

-- The spill store has what the references hold; without one, there are none.
abbrev pub Backed : Held → Option QueuePaging → Type 0
Backed held none = (k : ℕ) → Within k held none
Backed held (some p) = (k : ℕ) → Good k held p.spill

pub Backed-Fewer :
    (held held' : Held) (o : Option QueuePaging)
    → ((k : ℕ) → Fewer k 0 held' held)
    → Backed held o
    → Backed held' o
Backed-Fewer held held' none f h = λ k. (f k).1 none (h k)
Backed-Fewer held held' (some p) f h =
    λ k. Kept-Fewer k held held' 0 (get k p.spill.segments) p.spill.next_segment (f k) (h k)

pub Backed-release :
    (held held' : Held) (r : SpillRef) (o : Option QueuePaging)
    → ((k : ℕ) → Fewer k (cost_of k r) held' held)
    → Backed held o
    → Backed held' (release_in r o)
Backed-release held held' r none f h = λ k. (f k).1 none (h k)
Backed-release held held' r (some p) f h = λ k. release-Good k held held' r p.spill (f k) (h k)

pub Backed-pin_in : (held : Held) (o : Option QueuePaging) → Backed held o → Backed held (pin_in o)
unfolding pin
Backed-pin_in held none h = h
Backed-pin_in held (some p) h = h

pub Backed-unpin_in :
    (held : Held) (o : Option QueuePaging) → Backed held o → Backed held (unpin_in o)
Backed-unpin_in held none h = h
Backed-unpin_in held (some p) h = λ k. unpin-Good k held p.spill (h k)
