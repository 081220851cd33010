-- ===== src/Broker/Cluster/Paging/Identity.antt =====
-- ramqp-broker/src/cluster/paging.rs: the identity of a spill store stays.
use r_amqp.Common.{
  ℕ, ◌≡◌, refl, arith, Bool, true, false, not, ◌&&◌, Option, none, some, get, leb, ◌==◌, if_elim,
  length, saturating_sub, insert,
}
use r_amqp.Broker.Policy.{Body}
use r_amqp.Broker.Cluster.Paging.{
  SpillRef, Segment, Spill, Io, Appended, panicked, refused, stored, delete_segment, reclaim,
  reclaim_drained, fresh_current, roll, write_segment, append_current, append_rolled, append_at,
  append, release_from, release, is_current, segment_max_bytes,
}

reclaim-id : (k : ℕ) (s : Spill) → (reclaim k s).id ≡ s.id
unfolding reclaim delete_segment
reclaim-id k s = ground arith

reclaim_drained-id : (o : Option ℕ) (s : Spill) → (reclaim_drained o s).id ≡ s.id
unfolding reclaim_drained
reclaim_drained-id none s = refl
reclaim_drained-id (some old) s = ground (arith, reclaim-id old s)

roll-id : (opens : Bool) (s : Spill) → (roll opens s).1.id ≡ s.id
unfolding roll fresh_current
roll-id true s = reclaim_drained-id s.current s
roll-id false s = reclaim_drained-id s.current s

-- What an append leaves has the identity of the store.
abbrev pub HasId : ℕ → Appended → Type 0
HasId n panicked = Unit {0}
HasId n (refused s) = s.id ≡ n
HasId n (stored r s) = s.id ≡ n

append_current-HasId :
    (n : ℕ) (io : Io) (body : Body) (o : Option ℕ) (s : Spill)
    → s.id ≡ n
    → HasId n (append_current io body o s)
unfolding append_current write_segment
append_current-HasId n io body none s e = tt
append_current-HasId n io body (some k) s e = at (get k s.segments)
  where
    at : (o : Option Segment) → HasId n (write_segment io body k o s)
    at none = tt
    at (some g) = if_elim (HasId n) (λ v. v) (leb (length body) io.writes) _ _ e e

append_rolled-HasId :
    (n : ℕ) (io : Io) (body : Body) (r : Bool × Spill)
    → r.1.id ≡ n
    → HasId n (append_rolled io body r)
unfolding append_rolled
append_rolled-HasId n io body (true, s) e = append_current-HasId n io body s.current s e
append_rolled-HasId n io body (false, s) e = e

append_at-HasId :
    (io : Io) (body : Body) (o : Option Segment) (s : Spill) → HasId s.id (append_at io body o s)
unfolding append_at
append_at-HasId io body none s = tt
append_at-HasId io body (some g) s =
    if_elim (HasId s.id) (λ v. v) (leb segment_max_bytes g.size)
      (append_rolled io body (roll io.opens s)) (append_rolled io body (true, s))
      (append_rolled-HasId s.id io body (roll io.opens s) (roll-id io.opens s))
      (append_rolled-HasId s.id io body (true, s) refl)

pub append-HasId : (io : Io) (body : Body) (s : Spill) → HasId s.id (append io body s)
unfolding append
append-HasId io body s =
    elim s.current
      as (λ o. HasId s.id (elim o [
        | none ↦ append_rolled io body (roll io.opens s)
        | some k ↦ append_at io body (get k s.segments) s
      ])) [
        | none ↦ append_rolled-HasId s.id io body (roll io.opens s) (roll-id io.opens s)
        | some k ↦ append_at-HasId io body (get k s.segments) s
      ]

release_from-id : (k : ℕ) (o : Option Segment) (s : Spill) → (release_from k o s).id ≡ s.id
unfolding release_from
release_from-id k none s = refl
release_from-id k (some g) s =
    let s' = record s {
      segments = insert k (record g { live = saturating_sub g.live 1 }) s.segments;
    } in
    if_elim (λ (v : Spill). v.id ≡ s.id) (λ v. v)
      (saturating_sub g.live 1 == 0 && not (is_current k s.current)) (reclaim k s') s'
      (reclaim-id k s') refl

pub release-id : (r : SpillRef) (s : Spill) → (release r s).id ≡ s.id
unfolding release
release-id r s = release_from-id r.segment (get r.segment s.segments) s
