-- ===== src/Broker/Cluster/QueueGroup/Examples.antt =====
-- Runs of replicas of a quorum queue, and the theorems at concrete inputs.
use r_amqp.Common.{Bool, is_some, ℕ, ◌≡◌, refl, List, [], ◌∷◌, arith, true, false, none, some}
use r_amqp.Broker.Cluster.Paging.{Io, append, release, pin, unpin, open_preserving}
use r_amqp.Broker.Cluster.QueueGroup.{
  enqueue, settle, QueueResponse, enqueued, settled, not_found, resident, spilled, QueueState,
  paged, body_of, resolve, meta_of, ReplicaStep, command, prepare, finish, replica_run,
}
use r_amqp.Broker.Cluster.QueueGroup.Ledger.{enter_all, empty_ledger, commands_of}
use r_amqp.Broker.Cluster.QueueGroup.Snapshots.{
  PortableState, external, snapshot_bytes, restore_snapshot,
}
use r_amqp.Broker.Cluster.QueueGroup.Foreign.{IsRefused, restore_snapshot-IsRefused}
use r_amqp.Broker.Cluster.QueueGroup.Returning.{replica_run-returns}
use r_amqp.Broker.Cluster.QueueGroup.Replicas.{
  Shows, AgreeOrFail, replica_run-Shows, replica_run-agree,
}

abbrev disk : Io
disk = record { opens = true; writes = 100; reads = true }

abbrev no_disk : Io
no_disk = record { opens = false; writes = 0; reads = false }

-- Two messages, of which the first is retried and the second settled twice, with a snapshot between.
abbrev on_disk : List ReplicaStep
on_disk =
    command disk (enqueue (1 ∷ 2 ∷ []) 5)
    ∷ command disk (enqueue (3 ∷ []) 6)
    ∷ prepare
    ∷ command disk (settle 1 true)
    ∷ command disk (settle 2 false)
    ∷ finish
    ∷ command disk (settle 2 false)
    ∷ []

abbrev in_memory : List ReplicaStep
in_memory =
    command no_disk (enqueue (1 ∷ 2 ∷ []) 5)
    ∷ command no_disk (enqueue (3 ∷ []) 6)
    ∷ command no_disk (settle 1 true)
    ∷ command no_disk (settle 2 false)
    ∷ command no_disk (settle 2 false)
    ∷ []

abbrev answers : List QueueResponse
answers = enqueued 1 ∷ enqueued 2 ∷ settled ∷ settled ∷ not_found ∷ []

-- One replica spills every body.
abbrev spilling : QueueState
spilling = record {
  next_msg_id = 2;
  messages =
      (
        1,
        record {
          body = spilled (record { segment = 0; offset = 0; len = 2 });
          failures = 1;
          enqueued_ms = 5;
        },
      )
      ∷ [];
  resident_bytes = 0;
  paging = some (record {
    spill = record {
      id = 9;
      next_segment = 1;
      current = some 0;
      segments = (0, record { file = 1 ∷ 2 ∷ 3 ∷ []; live = 1; size = 3 }) ∷ [];
      pins = 0;
      deferred_delete = [];
    };
    resident_max_bytes = 0;
  });
}

-- The other keeps all resident, since its files do not open.
abbrev keeping : QueueState
keeping = record {
  next_msg_id = 2;
  messages = (1, record { body = resident (1 ∷ 2 ∷ []); failures = 1; enqueued_ms = 5 }) ∷ [];
  resident_bytes = 2;
  paging = some (record {
    spill = record {
      id = 8;
      next_segment = 2;
      current = none;
      segments = [];
      pins = 0;
      deferred_delete = [];
    };
    resident_max_bytes = 0;
  });
}

replica_run-Shows_example : Shows answers spilling (enter_all (commands_of on_disk) empty_ledger)
unfolding replica_run paged open_preserving append release pin unpin
replica_run-Shows_example =
    replica_run-Shows 9 0 [] on_disk answers spilling
      (omega arith, (omega arith, (tt, (tt, (tt, tt))))) refl

replica_run-agree_example :
    (answers ≡ answers)
    × ((msg_id : ℕ) (reads reads' : Bool)
        → AgreeOrFail reads reads'
            (resolve reads (body_of msg_id spilling))
            (resolve reads' (body_of msg_id keeping))
          × (meta_of msg_id spilling ≡ meta_of msg_id keeping))
unfolding replica_run paged open_preserving append release pin unpin
replica_run-agree_example =
    replica_run-agree 9 0 8 0 [] [] on_disk in_memory answers answers spilling keeping
      (omega arith, (omega arith, (tt, (tt, (tt, tt))))) refl refl refl

replica_run-returns_example :
    is_some (replica_run on_disk (paged (open_preserving 9 ((4, 0 ∷ []) ∷ [])) 0)) ≡ true
replica_run-returns_example =
    replica_run-returns 9 0 ((4, 0 ∷ []) ∷ []) on_disk
      (refl, (refl, (tt, (refl, (refl, (tt, (refl, tt)))))))

-- The snapshot of the replica that spills, which has one external body.
abbrev portable : PortableState
portable = record {
  next_msg_id = 2;
  messages = (1, (1, (5, external (record { segment = 0; offset = 0; len = 2 })))) ∷ [];
  spill_id = 9;
}

restore_snapshot-IsRefused_example : IsRefused (restore_snapshot (λ n. disk) portable keeping)
unfolding snapshot_bytes
restore_snapshot-IsRefused_example =
    restore_snapshot-IsRefused true spilling keeping portable (λ n. disk) refl refl
      (λ e. absurd (ground (arith, e)))
