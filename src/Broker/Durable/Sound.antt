-- ===== src/Broker/Durable/Sound.antt =====
-- ramqp-broker/src/durable.rs and store.rs: where a message of a queue stands between the actor, the
-- channel of the writer and the disk.
use r_amqp.Common.{
  ℕ, ◌+◌, ◌≤◌, ◌<◌, ◌≡◌, ◌⊎◌, Bool, true, false, Option, none, some, List, [], ◌∷◌, length, find,
  Table,
}
use r_amqp.Broker.Store.{StoreOp, Row}
use r_amqp.Broker.Store.Messages.{rows_at, Describes, touches, touched}
use r_amqp.Broker.Durable.State.{Pending, Ready, Inflight, World}
use r_amqp.Broker.Durable.Run.{contains}
use r_amqp.Broker.Durable.Entries.{occurrences, At}

-- The pending publishes by their ids.
abbrev pub keyed : List Pending → List (ℕ × Pending)
keyed [] = []
keyed (c ∷ cs) = (c.msg_id, c) ∷ keyed cs

module _ (q i : ℕ) where
  -- An operation that writes the message with this time and length.
  abbrev pub Inserts : ℕ × ℕ → StoreOp → Type 0
  Inserts x (StoreOp.insert q' id ms body done) =
      (q' ≡ q) × ((id ≡ i) × ((ms ≡ x.0) × (length body ≡ x.1)))
  Inserts x _ = ⊥

  -- The insert of the message waits, and no other operation on it.
  abbrev pub Awaits : ℕ × ℕ → List StoreOp → Type 0
  Awaits x [] = ⊥
  Awaits x (op ∷ ops) =
      (Inserts x op × (touched q i ops ≡ false)) ⊎ ((touches q i op ≡ false) × Awaits x ops)

  -- The message is on disk as it is, and nothing that waits will remove it.
  abbrev pub Safe : List StoreOp → List ℕ → Table Row → ℕ × ℕ → Type 0
  Safe waiting deferred messages x =
      Describes x (find q i messages)
      × ((touched q i waiting ≡ false) × (contains i deferred ≡ false))

  abbrev pub Kept : List StoreOp → List ℕ → Table Row → ℕ × (ℕ × ℕ) → Type 0
  Kept waiting deferred messages v = Safe waiting deferred messages v.1

  abbrev pub Answered : List StoreOp → List ℕ → Table Row → ℕ × ℕ → Option Bool → Type 0
  Answered waiting deferred messages x none = Awaits x waiting × (contains i deferred ≡ false)
  Answered waiting deferred messages x (some true) = Safe waiting deferred messages x
  Answered waiting deferred messages x (some false) =
      (touched q i waiting ≡ false) × (contains i deferred ≡ false)

  abbrev pub Told : List StoreOp → List ℕ → Table Row → Pending → Type 0
  Told waiting deferred messages c =
      Answered waiting deferred messages (c.enqueued_ms, c.len) c.answer

  abbrev pub places : Ready → Inflight → List Pending → ℕ
  places ready inflight commits =
      occurrences i ready + occurrences i inflight + occurrences i (keyed commits)

  pub record Stands (ready : Ready) (inflight : Inflight) (commits : List Pending) (next : ℕ)
      (waiting : List StoreOp) (deferred : List ℕ) (messages : Table Row) : Type 0 where
    pub once : rows_at q i messages ≤ 1
    pub lone : places ready inflight commits ≤ 1
    pub of_ready : At i (Safe waiting deferred messages) ready
    pub of_inflight : At i (Kept waiting deferred messages) inflight
    pub of_commits : At i (Told waiting deferred messages) (keyed commits)
    pub none_ahead : next < i → places ready inflight commits ≡ 0
    pub untouched_ahead : next < i → touched q i waiting ≡ false
    pub undeferred_ahead : next < i → contains i deferred ≡ false

  abbrev pub Sound : World → Type 0
  Sound w =
      Stands w.queue.ready w.queue.inflight w.queue.commits w.queue.next_msg_id w.waiting w.deferred
        w.tables.messages
