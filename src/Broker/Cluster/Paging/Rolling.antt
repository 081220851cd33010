-- ===== src/Broker/Cluster/Paging/Rolling.antt =====
-- ramqp-broker/src/cluster/paging.rs: the roll of a segment whose next file does not open.
use r_amqp.Common.{
  Bool, ℕ, ◌+◌, ◌≤◌, ◌≡◌, refl, ap, ◌∙◌, arith, false, none, some, ==_iff, get, remove, get-remove,
}
use r_amqp.Broker.Policy.{Body}
use r_amqp.Broker.Cluster.Paging.{
  Segment, Spill, Io, panicked, refused, delete_segment, reclaim, reclaim_drained, roll,
  append_rolled, append_at, append, segment_max_bytes,
}

append-gone :
    (io : Io) (body : Body) (old : ℕ) (s : Spill)
    → s.current ≡ some old
    → get old s.segments ≡ none
    → append io body s ≡ panicked
unfolding append append_at
append-gone io body old s e gone = rw (e, gone) refl

append-current_segment :
    (io : Io) (body : Body) (old : ℕ) (g : Segment) (s : Spill)
    → s.current ≡ some old
    → get old s.segments ≡ some g
    → append io body s ≡ append_at io body (some g) s
unfolding append
append-current_segment io body old g s e at =
    ap
      (λ o. elim o [
        | none ↦ append_rolled io body (roll io.opens s)
        | some id ↦ append_at io body (get id s.segments) s
      ])
      e
    ∙ ap (λ o. append_at io body o s) at

reclaim_drained-deletes :
    (old : ℕ) (g : Segment) (s : Spill)
    → get old s.segments ≡ some g
    → g.live ≡ 0
    → s.pins ≡ 0
    → reclaim_drained (some old) s ≡ delete_segment old s
unfolding reclaim_drained reclaim
reclaim_drained-deletes old g s at drained free = rw (at, drained, free) refl

-- When the current segment is full and drained and no snapshot is read, a failure to open the file of
-- the next segment is an error of that append alone, but every append after it panics.
pub append-panicked :
    (old : ℕ) (g : Segment) (s : Spill) (writes : ℕ) (reads : Bool) (body : Body)
    → s.current ≡ some old
    → get old s.segments ≡ some g
    → g.live ≡ 0
    → segment_max_bytes ≤ g.size
    → s.pins ≡ 0
    → (s' : Spill) × ((append (record { opens = false; writes = writes; reads = reads }) body s
          ≡ refused s')
        × ((io : Io) (next_body : Body) → append io next_body s' ≡ panicked))
unfolding append append_at roll reclaim_drained reclaim delete_segment append_rolled
append-panicked old g s writes reads body e at drained full free = (
  record s { segments = remove old s.segments; next_segment = s.next_segment + 1 },
  (
    append-current_segment (record { opens = false; writes = writes; reads = reads }) body old g s e
          at
        ∙ (ground (arith, full)
            ∙ ap
                (λ v.
                  append_rolled (record { opens = false; writes = writes; reads = reads }) body
                    (false, record v { next_segment = v.next_segment + 1 }))
                (ap (λ o. reclaim_drained o s) e
                  ∙ reclaim_drained-deletes old g s at drained free)),
    λ io next_body.
        append-gone io next_body old _ e
          (ground (arith, get-remove old old s.segments, ==_iff old old)),
  ),
)
