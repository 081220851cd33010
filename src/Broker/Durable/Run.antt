-- ===== src/Broker/Durable/Run.antt =====
-- ramqp-broker/src/durable.rs and store.rs: the turns of the actor, the commits of the writer, the
-- removals that the dead-letter router lets go on, and recovery after a crash.
use r_amqp.Common.{
  remove_at, ℕ, Bool, true, false, Option, none, some, List, [], ◌∷◌, ◌++◌, ltb, ◌==◌,
  if◌then◌else◌, get_elem?, take, min, max, total,
}
use r_amqp.Broker.Policy.{EffectivePolicy}
use r_amqp.Broker.Queue.State.{QueueMsg}
use r_amqp.Broker.Store.{StoreOp, Tables, commit_batch_max, write_batch, scan}
use r_amqp.Broker.Durable.Ordered.{insert_ordered}
use r_amqp.Broker.Durable.State.{Pending, Ready, Durable, World, Env, submit}
use r_amqp.Broker.Durable.Handle.{Handled, with_queue, handle, resolve_commit}
use r_amqp.Broker.Durable.Dispatching.{dispatch}

unfoldable pub then_dispatch : (queue_id : ℕ) → EffectivePolicy → Env → Handled → World
then_dispatch queue_id p env h =
    let w = dispatch queue_id p env h.world in if h.dispatches then w else h.world

-- The ids of the inserts of a queue among some operations: whose publishes the writer answers.
unfoldable pub inserted : (queue_id : ℕ) → List StoreOp → List ℕ
inserted queue_id [] = []
inserted queue_id (StoreOp.insert q id ms body done ∷ ops) =
    let rest = inserted queue_id ops in if q == queue_id then id ∷ rest else rest
inserted queue_id (_ ∷ ops) = inserted queue_id ops

unfoldable pub contains : ℕ → List ℕ → Bool
contains n [] = false
contains n (m ∷ ms) = if m == n then true else contains n ms

-- `done.send(committed)`, as the waiting publishes see it.
unfoldable pub answer_commits : (ids : List ℕ) → (committed : Bool) → List Pending → List Pending
unfolding contains
answer_commits ids committed [] = []
answer_commits ids committed (c ∷ cs) =
    (if contains c.msg_id ids then record c { answer = some committed } else c)
    ∷ answer_commits ids committed cs

-- A commit of the writer.
unfoldable pub write : (queue_id found : ℕ) → (committed : Bool) → World → World
unfolding inserted answer_commits
write queue_id found committed w =
    let (waiting', tables', told) = write_batch found committed w.waiting w.tables in
    record w {
      waiting = waiting';
      tables = tables';
      queue = record (w.queue) {
        commits =
            answer_commits (inserted queue_id (take (min found commit_batch_max) w.waiting))
              committed w.queue.commits;
      };
    }

-- `commits.next()` yields any commit that has its answer.
unfoldable pub take_commit :
    (queue_id : ℕ) → EffectivePolicy → Env → ℕ → Option Pending → World → World
take_commit queue_id p env i none w = w
take_commit queue_id p env i (some c) w = elim c.answer [
  | none ↦ w
  | some ok ↦
      dispatch queue_id p env
        (resolve_commit c ok (with_queue (λ q. record q { commits = remove_at i q.commits }) w))
]

-- The router has settled the fate of a dead letter: the source's copy is removed.
unfoldable pub release_deferred : (queue_id : ℕ) → Env → ℕ → Option ℕ → World → World
release_deferred queue_id env i none w = w
release_deferred queue_id env i (some id) w =
    submit env (StoreOp.remove queue_id id) (record w { deferred = remove_at i w.deferred })

unfoldable pub recovered_ready : List (ℕ × (ℕ × (ℕ × ℕ))) → Ready
recovered_ready [] = []
recovered_ready ((id, (failures, (ms, len))) ∷ rows) =
    insert_ordered id (ms, len) (recovered_ready rows)

unfoldable pub recovered_failures : List (ℕ × (ℕ × (ℕ × ℕ))) → List (ℕ × ℕ)
recovered_failures [] = []
recovered_failures ((id, (failures, (ms, len))) ∷ rows) =
    let rest = recovered_failures rows in if ltb 0 failures then (id, failures) ∷ rest else rest

unfoldable pub max_id : List (ℕ × (ℕ × (ℕ × ℕ))) → ℕ
max_id [] = 0
max_id ((id, (failures, (ms, len))) ∷ rows) = max id (max_id rows)

-- What `spawn` scans and `run` starts from.
unfoldable pub recover : (queue_id : ℕ) → Tables → Durable
unfolding recovered_ready recovered_failures max_id
recover queue_id d =
    let rows = scan queue_id d.messages in
    record {
      subs = [];
      inflight = [];
      ready = recovered_ready rows;
      failures = recovered_failures rows;
      next_msg_id = max_id rows;
      bytes = total (λ r. r.1.1.1) rows;
      commits = [];
      publishes_pending = 0;
      reserved = 0;
      next_sub_id = 0;
      rr = 0;
    }

-- A crash loses all but the committed tables; the actor starts again from these.
unfoldable pub restart : (queue_id : ℕ) → World → World
unfolding recover
restart queue_id w = record w { queue = recover queue_id w.tables; waiting = []; deferred = [] }

-- Whether an operation writes the messages of a queue.
unfoldable pub concerns : (queue_id : ℕ) → StoreOp → Bool
concerns queue_id (StoreOp.insert q id ms body done) = q == queue_id
concerns queue_id (StoreOp.remove q id) = q == queue_id
concerns queue_id (StoreOp.fail q id) = q == queue_id
concerns queue_id _ = false

-- What happens, one after the other: a message of the mailbox, a commit of so many operations, the
-- answer to a publish, the router's answer, an operation of another actor of the node, and a crash.
pub data Event : Type 0 where
  message : Env → QueueMsg → Event
  committed : (found : ℕ) (ok : Bool) → Event
  commit_next : Env → (index : ℕ) → Event
  router_resolved : Env → (index : ℕ) → Event
  elsewhere : StoreOp → Event
  crash : Event

unfoldable pub step : (queue_id : ℕ) → EffectivePolicy → Event → World → World
unfolding then_dispatch write take_commit release_deferred concerns restart
step queue_id p (message env msg) w = then_dispatch queue_id p env (handle queue_id p env msg w)
step queue_id p (committed found ok) w = write queue_id found ok w
step queue_id p (commit_next env i) w = take_commit queue_id p env i (get_elem? w.queue.commits i) w
step queue_id p (router_resolved env i) w =
    release_deferred queue_id env i (get_elem? w.deferred i) w
step queue_id p (elsewhere op) w =
    if concerns queue_id op then w else record w { waiting = w.waiting ++ (op ∷ []) }
step queue_id p crash w = restart queue_id w

unfoldable pub run : (queue_id : ℕ) → EffectivePolicy → List Event → World → World
unfolding step
run queue_id p [] w = w
run queue_id p (e ∷ es) w = run queue_id p es (step queue_id p e w)
