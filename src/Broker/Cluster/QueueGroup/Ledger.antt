-- ===== src/Broker/Cluster/QueueGroup/Ledger.antt =====
-- What a quorum queue promises: a ledger of messages with their bodies, as if all stayed in memory.
use r_amqp.Common.{
  ℕ, true, false, Option, none, some, List, [], ◌∷◌, get, remove, insert, wrapping_add32,
  wrapping_add64,
}
use r_amqp.Broker.Policy.{Body}
use r_amqp.Broker.Cluster.QueueGroup.{
  QueueCommand, enqueue, settle, QueueResponse, enqueued, settled, not_found, ReplicaStep, command,
  prepare, finish,
}

pub record Entry : Type 0 where
  pub content : Body
  pub attempts : ℕ
  pub since_ms : ℕ

pub record Ledger : Type 0 where
  pub last_id : ℕ
  pub entries : List (ℕ × Entry)

abbrev pub empty_ledger : Ledger
empty_ledger = record { last_id = 0; entries = [] }

abbrev pub retry_entry : ℕ → Option Entry → Ledger → QueueResponse × Ledger
retry_entry id none l = (not_found, l)
retry_entry id (some e) l = (
  settled,
  record l { entries = insert id (record e { attempts = wrapping_add32 e.attempts 1 }) l.entries },
)

abbrev pub drop_entry : ℕ → Option Entry → Ledger → QueueResponse × Ledger
drop_entry id none l = (not_found, l)
drop_entry id (some e) l = (settled, record l { entries = remove id l.entries })

abbrev pub enter : QueueCommand → Ledger → QueueResponse × Ledger
enter (enqueue body ms) l =
    let id = wrapping_add64 l.last_id 1 in
    (
      enqueued id,
      record {
        last_id = id;
        entries = insert id (record { content = body; attempts = 0; since_ms = ms }) l.entries;
      },
    )
enter (settle id true) l = retry_entry id (get id l.entries) l
enter (settle id false) l = drop_entry id (get id l.entries) l

-- The answers to some commands, and the ledger at the end.
abbrev pub enter_all : List QueueCommand → Ledger → List QueueResponse × Ledger
enter_all [] l = ([], l)
enter_all (c ∷ cs) l = let (r, l') = enter c l in let (rs, l'') = enter_all cs l' in (r ∷ rs, l'')

abbrev pub commands_of : List ReplicaStep → List QueueCommand
commands_of [] = []
commands_of (command io c ∷ ss) = c ∷ commands_of ss
commands_of (prepare ∷ ss) = commands_of ss
commands_of (finish ∷ ss) = commands_of ss

-- What a message has in the ledger.
abbrev pub content_in : Option Entry → Option Body
content_in none = none
content_in (some e) = some e.content

abbrev pub meta_in : Option Entry → Option (ℕ × ℕ)
meta_in none = none
meta_in (some e) = some (e.since_ms, e.attempts)
