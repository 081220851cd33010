-- ===== src/Broker/Cluster/QueueGroup/Replicas.antt =====
-- ramqp-broker/src/cluster/queue_group.rs: whole runs of a replica, and two replicas of a queue.
use r_amqp.Common.{
  Bool, true, false, ◌⊎◌, inl, inr, ℕ, ◌≡◌, refl, sym, ap, subst, ◌∙◌, Option, none, some, List, [],
  ◌∷◌, get, All,
}
use r_amqp.Broker.Policy.{Body}
use r_amqp.Broker.Cluster.Paging.{read, open_preserving}
use r_amqp.Broker.Cluster.Paging.Reading.{started-Good, read_segment-Reads, read_segment_fails}
use r_amqp.Broker.Cluster.QueueGroup.{
  BodyFetch, ready, from_spill, no_paging, QueueResponse, StoredBody, resident, spilled,
  ReplicatedMessage, QueuePaging, QueueState, paged, body_of, resolve, meta_of, apply,
  prepare_snapshot, finish_snapshot, ReplicaStep, command, prepare, finish, answered, replica_step,
  before, replica_run, fetch_of,
}
use r_amqp.Broker.Cluster.QueueGroup.Ledger.{Ledger, empty_ledger, enter, enter_all}
use r_amqp.Broker.Cluster.QueueGroup.Pairs.{
  Pairs, message_in, entry_in, get-messages_of, get-entries_of, held_by, IsSame, AllSame,
  AllSame-get, Reads-get, Backed, Backed-pin_in, Backed-unpin_in,
}
use r_amqp.Broker.Cluster.QueueGroup.{fetch_message, meta_message}
use r_amqp.Broker.Cluster.QueueGroup.Ledger.{commands_of, content_in, meta_in}
use r_amqp.Broker.Cluster.QueueGroup.Refinement.{FitsRef, Agrees, Outcome, apply-Outcome}

abbrev Runs : Option (List QueueResponse × QueueState) → List QueueResponse × Ledger → Type 0
Runs none a = Unit {0}
Runs (some (rs, q)) a = (rs ≡ a.0) × ((z : Pairs) × Agrees z q a.1)

Runs-before :
    (r : QueueResponse) (r' : QueueResponse) (o : Option (List QueueResponse × QueueState))
    (a : List QueueResponse × Ledger)
    → r ≡ r'
    → Runs o a
    → Runs (before (r ∷ []) o) (r' ∷ a.0, a.1)
Runs-before r r' none a e h = tt
Runs-before r r' (some (rs, q)) a e (same, h) = (ap (λ x. x ∷ rs) e ∙ ap (λ x. r' ∷ x) same, h)

Runs-nothing :
    (o : Option (List QueueResponse × QueueState)) (a : List QueueResponse × Ledger)
    → Runs o a
    → Runs (before [] o) a
Runs-nothing none a h = tt
Runs-nothing (some (rs, q)) a h = h

Agrees-prepare :
    (z : Pairs) (q : QueueState) (l : Ledger) → Agrees z q l → Agrees z (prepare_snapshot q) l
unfolding prepare_snapshot
Agrees-prepare z q l h = record {
  messages = h.messages;
  entries = h.entries;
  last = h.last;
  same = h.same;
  backed = Backed-pin_in (held_by z) q.paging h.backed;
}

Agrees-finish :
    (z : Pairs) (q : QueueState) (l : Ledger) → Agrees z q l → Agrees z (finish_snapshot q) l
unfolding finish_snapshot
Agrees-finish z q l h = record {
  messages = h.messages;
  entries = h.entries;
  last = h.last;
  same = h.same;
  backed = Backed-unpin_in (held_by z) q.paging h.backed;
}

replica_run-Runs :
    (ss : List ReplicaStep) (z : Pairs) (q : QueueState) (l : Ledger)
    → All FitsRef (commands_of ss)
    → Agrees z q l
    → Runs (replica_run ss q) (enter_all (commands_of ss) l)
unfolding replica_run replica_step
replica_run-Runs [] z q l fits h = (refl, (z, h))
replica_run-Runs (command io c ∷ ss) z q l (fit, fits) h =
    elim (apply io c q)
        as (λ o.
          Outcome o (enter c l)
          → Runs (elim (answered o) [ none ↦ none | some (rs, q') ↦ before rs (replica_run ss q') ])
              (enter_all (c ∷ commands_of ss) l)) [
                | none ↦ (λ _. tt)
                | some (r, q') ↦ (λ (e, (z', h')).
                    Runs-before r (enter c l).0 (replica_run ss q')
                      (enter_all (commands_of ss) (enter c l).1) e
                      (replica_run-Runs ss z' q' (enter c l).1 fits h'))
              ]
      (apply-Outcome z q l h io c fit)
replica_run-Runs (prepare ∷ ss) z q l fits h =
    Runs-nothing (replica_run ss (prepare_snapshot q)) (enter_all (commands_of ss) l)
      (replica_run-Runs ss z (prepare_snapshot q) l fits (Agrees-prepare z q l h))
replica_run-Runs (finish ∷ ss) z q l fits h =
    Runs-nothing (replica_run ss (finish_snapshot q)) (enter_all (commands_of ss) l)
      (replica_run-Runs ss z (finish_snapshot q) l fits (Agrees-finish z q l h))

-- A body that is resolve-fetch_message is the one of the ledger.
resolve-fetch_message :
    (z : Pairs) (id : ℕ) (o : Option (ReplicatedMessage × Body)) (paging : Option QueuePaging)
    → get id z ≡ o
    → AllSame z
    → Backed (held_by z) paging
    → resolve true (fetch_message (message_in o) paging) ≡ content_in (entry_in o)
unfolding read
resolve-fetch_message z id none paging e s h = refl
resolve-fetch_message z id (some (m, b)) paging e s h = at m.body refl paging h
  where
    at :
        (x : StoredBody)
        → m.body ≡ x
        → (paging : Option QueuePaging) → Backed (held_by z) paging
        → resolve true (some (fetch_of x paging)) ≡ some b
    at (resident c) e' paging h = ap some (subst (λ x. IsSame x b) e' (AllSame-get id z m b e s))
    at (spilled r) e' none h =
        elim (Reads-get r.segment id z m b r none e e' refl (h r.segment)) [ ]
    at (spilled r) e' (some p) h =
        let good = h r.segment in
        read_segment-Reads r b (get r.segment p.spill.segments) good.sized
          (Reads-get r.segment id z m b r (get r.segment p.spill.segments) e e' refl good.within)

meta_message-entry :
    (o : Option (ReplicatedMessage × Body)) → meta_message (message_in o) ≡ meta_in (entry_in o)
meta_message-entry none = refl
meta_message-entry (some (m, b)) = refl

-- What a client of the queue sees of a replica: the answers, and each message's body and meta data.
abbrev pub Shows : List QueueResponse → QueueState → List QueueResponse × Ledger → Type 0
Shows rs q a =
    (rs ≡ a.0)
    × ((msg_id : ℕ)
        → (resolve true (body_of msg_id q) ≡ content_in (get msg_id a.1.entries))
          × (meta_of msg_id q ≡ meta_in (get msg_id a.1.entries)))

Agrees-Shows :
    (z : Pairs) (q : QueueState) (l : Ledger) (msg_id : ℕ)
    → Agrees z q l
    → (resolve true (body_of msg_id q) ≡ content_in (get msg_id l.entries))
      × (meta_of msg_id q ≡ meta_in (get msg_id l.entries))
unfolding body_of meta_of
Agrees-Shows z q l id h =
    let m : get id q.messages ≡ message_in (get id z) =
      ap (λ r. get id r) h.messages ∙ get-messages_of id z in
    let e : entry_in (get id z) ≡ get id l.entries =
      sym (ap (λ r. get id r) h.entries ∙ get-entries_of id z) in
    (
      ap (λ o. resolve true (fetch_message o q.paging)) m
          ∙ (resolve-fetch_message z id (get id z) q.paging refl h.same h.backed ∙ ap content_in e),
      ap meta_message m ∙ (meta_message-entry (get id z) ∙ ap meta_in e),
    )

-- A replica that starts empty over any segment files, and applies commands whose bodies are shorter than
-- 4 GiB, gives the answers of a ledger that keeps every body in memory, and has its bodies, times and
-- failure counts: wherever bodies are spilled, files fail to open, writes stop short, and snapshots are
-- built in between, as long as the seek and the read of a spilled body succeed. It has no answer only
-- where the spill store panics.
pub replica_run-Shows :
    (id max : ℕ) (files : List (ℕ × Body)) (ss : List ReplicaStep) (rs : List QueueResponse)
    (q : QueueState)
    → All FitsRef (commands_of ss)
    → replica_run ss (paged (open_preserving id files) max) ≡ some (rs, q)
    → Shows rs q (enter_all (commands_of ss) empty_ledger)
unfolding paged
replica_run-Shows id max files ss rs q fits ran =
    let start : Agrees [] (paged (open_preserving id files) max) empty_ledger = record {
      messages = refl;
      entries = refl;
      last = refl;
      same = tt;
      backed = λ k. started-Good k id files;
    } in
    let (e, (z, h)) =
      subst (λ o. Runs o (enter_all (commands_of ss) empty_ledger)) ran
        (replica_run-Runs ss [] (paged (open_preserving id files) max) empty_ledger fits start) in
    (e, λ msg_id. Agrees-Shows z q (enter_all (commands_of ss) empty_ledger).1 msg_id h)

-- What two reads of a body give: the same, but for a read that fails and gives nothing.
abbrev pub AgreeOrFail : (reads reads' : Bool) → (found found' : Option Body) → Type 0
AgreeOrFail reads reads' found found' =
    (found ≡ found') ⊎ (((reads ≡ false) × (found ≡ none)) ⊎ ((reads' ≡ false) × (found' ≡ none)))

resolve-reads :
    (reads : Bool) (o : Option BodyFetch)
    → (resolve reads o ≡ resolve true o) ⊎ ((reads ≡ false) × (resolve reads o ≡ none))
unfolding read
resolve-reads true o = inl refl
resolve-reads false none = inl refl
resolve-reads false (some (ready b)) = inl refl
resolve-reads false (some no_paging) = inl refl
resolve-reads false (some (from_spill s r)) =
    inr (refl, read_segment_fails r (get r.segment s.segments))

resolve-AgreeOrFail :
    (reads reads' : Bool) (o o' : Option BodyFetch)
    → resolve true o ≡ resolve true o'
    → AgreeOrFail reads reads' (resolve reads o) (resolve reads' o')
resolve-AgreeOrFail reads reads' o o' same = elim (resolve-reads reads o) [
  | inr fails ↦ inr (inl fails)
  | inl e ↦ elim (resolve-reads reads' o') [
    | inr fails ↦ inr (inr fails)
    | inl e' ↦ inl (e ∙ (same ∙ sym e'))
  ]
]

-- Two replicas that apply the same commands, with bodies shorter than 4 GiB, and do not panic give the
-- same answers and have the same meta data for every id, whatever each has resident or spilled, wherever
-- files fail to open or writes stop short, and whatever snapshots are built. The reads of a body on the
-- two give the same, but for a replica on which the seek or the read of the file fails, which gives
-- nothing.
pub replica_run-agree :
    (id max id' max' : ℕ) (files files' : List (ℕ × Body)) (ss ss' : List ReplicaStep)
    (rs rs' : List QueueResponse) (q q' : QueueState)
    → All FitsRef (commands_of ss)
    → commands_of ss ≡ commands_of ss'
    → replica_run ss (paged (open_preserving id files) max) ≡ some (rs, q)
    → replica_run ss' (paged (open_preserving id' files') max') ≡ some (rs', q')
    → (rs ≡ rs')
      × ((msg_id : ℕ) (reads reads' : Bool)
          → AgreeOrFail reads reads'
              (resolve reads (body_of msg_id q))
              (resolve reads' (body_of msg_id q'))
            × (meta_of msg_id q ≡ meta_of msg_id q'))
replica_run-agree id max id' max' files files' ss ss' rs rs' q q' fits alike ran ran' =
    let (e, f) = replica_run-Shows id max files ss rs q fits ran in
    let (e', f') =
      subst (λ cs. Shows rs' q' (enter_all cs empty_ledger)) (sym alike)
        (replica_run-Shows id' max' files' ss' rs' q' (subst (All FitsRef) alike fits) ran') in
    (
      e ∙ sym e',
      λ msg_id reads reads'. (
        resolve-AgreeOrFail reads reads' (body_of msg_id q) (body_of msg_id q')
            ((f msg_id).0 ∙ sym (f' msg_id).0),
        (f msg_id).1 ∙ sym (f' msg_id).1,
      ),
    )
