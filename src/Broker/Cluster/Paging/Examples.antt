-- ===== src/Broker/Cluster/Paging/Examples.antt =====
-- Runs of a spill store, and its theorems at concrete inputs.
use r_amqp.Common.{◌≡◌, refl, List, [], ◌∷◌, arith, true, false, some}
use r_amqp.Broker.Policy.{Body}
use r_amqp.Broker.Cluster.Paging.{
  Spill, Io, refused, panicked, append, read, release, open_preserving, pin, unpin,
  segment_max_bytes,
}
use r_amqp.Broker.Cluster.Paging.Reading.{
  Call, spill_body, release_nth, hold_pin, drop_pin, Spilled, calls, calls-read,
}
use r_amqp.Broker.Cluster.Paging.Rolling.{append-panicked}

abbrev well : Io
well = record { opens = true; writes = 100; reads = true }

-- Two bodies are spilled next to a recovered segment, a write stops short, and the older one is settled.
abbrev settled : List Call
settled =
    spill_body well (1 ∷ 2 ∷ [])
    ∷ spill_body (record { opens = true; writes = 1; reads = true }) (7 ∷ 8 ∷ [])
    ∷ spill_body well (3 ∷ 4 ∷ 5 ∷ [])
    ∷ hold_pin
    ∷ release_nth 1
    ∷ drop_pin
    ∷ []

abbrev left : Spilled
left = record {
  spill = record {
    id = 9;
    next_segment = 6;
    current = some 5;
    segments =
        (5, record { file = 1 ∷ 2 ∷ 3 ∷ 4 ∷ 5 ∷ []; live = 1; size = 5 })
        ∷ (4, record { file = 0 ∷ []; live = 0; size = 1 })
        ∷ [];
    pins = 0;
    deferred_delete = [];
  };
  held = (record { segment = 5; offset = 2; len = 3 }, 3 ∷ 4 ∷ 5 ∷ []) ∷ [];
}

calls-read_example :
    read true (record { segment = 5; offset = 2; len = 3 }) left.spill ≡ some (3 ∷ 4 ∷ 5 ∷ [])
unfolding calls append open_preserving unpin release pin
calls-read_example =
    calls-read 9 ((4, 0 ∷ []) ∷ []) settled left
      (omega arith, (omega arith, (omega arith, (tt, (tt, (tt, tt)))))) refl 0
      (record { segment = 5; offset = 2; len = 3 }) (3 ∷ 4 ∷ 5 ∷ []) refl

-- A full segment whose messages are settled.
abbrev full : Spill
full = record {
  id = 9;
  next_segment = 1;
  current = some 0;
  segments = (0, record { file = []; live = 0; size = segment_max_bytes }) ∷ [];
  pins = 0;
  deferred_delete = [];
}

append-panicked_example :
    (s' : Spill) × ((append (record { opens = false; writes = 0; reads = false }) (1 ∷ []) full
        ≡ refused s')
      × ((io : Io) (next_body : Body) → append io next_body s' ≡ panicked))
append-panicked_example =
    append-panicked 0 (record { file = []; live = 0; size = segment_max_bytes }) full 0 false
      (1 ∷ []) refl refl refl (omega arith) refl
