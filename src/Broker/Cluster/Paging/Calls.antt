-- ===== src/Broker/Cluster/Paging/Calls.antt =====
-- ramqp-broker/src/cluster/paging.rs: calls of a spill store, and what is held across them.
use r_amqp.Common.{
  ◌≤◌, ℕ, zero, suc, ◌+◌, ◌≡◌, refl, subst, ◌∙◌, inl, inr, arith, Bool, true, false, not, ◌&&◌,
  Bool-cases, Option, none, some, List, [], ◌∷◌, ◌++◌, ◌==◌, if◌then◌else◌, ==_iff, length, get,
  insert, get-insert, if_elim, leb, drop, take, saturating_sub, ◌%◌,
}
use r_amqp.Broker.Policy.{Body}
use r_amqp.Broker.Cluster.Paging.{
  SpillRef, Segment, Spill, Io, Appended, panicked, refused, stored, delete_segment, is_dead, roll,
  write_segment, append_current, append_rolled, append_at, append, write_at, release_from, release,
  delete_drained, unpin, is_current, segment_max_bytes,
}
use r_amqp.Broker.Cluster.Paging.Bytes.{slice-write, slice-written, length-written}
use r_amqp.Common.{get_elem?}
use r_amqp.Common.{remove_at}
use r_amqp.Broker.Cluster.Paging.Outstanding.{
  Held, count, Within, Kept, Good, Within-grow, insert-Good, roll-Good, reclaim-Good,
  delete_segment-Good,
}

module _ (k : ℕ) where
  -- After an append that stores, its reference is held too.
  abbrev pub AppendedGood : Held → Body → Appended → Type 0
  AppendedGood held body panicked = Unit {0}
  AppendedGood held body (refused s) = Good k held s
  AppendedGood held body (stored r s) = Good k ((r, body) ∷ held) s

  written-Kept :
      (held : Held) (body : Body) (id : ℕ) (g : Segment) (next : ℕ)
      → id ≡ k
      → length body % 0x1_0000_0000 ≡ length body
      → Kept k held (some g) next
      → Kept k
          ((record { segment = id; offset = g.size; len = length body % 0x1_0000_0000 }, body)
            ∷ held)
          (some (record {
            file = write_at g.size body g.file;
            live = g.live + 1;
            size = g.size + length body;
          }))
          next
  written-Kept held body id g next same fits h = record {
    covered = ground (arith, h.covered, same, ==_iff id k);
    within = (
      (λ _. (
        omega (arith, fits),
        rw fits (slice-written g.size g.file body (drop (g.size + length body) g.file) h.sized),
      )),
      Within-grow k held (some g) _
          (λ r b read. (
            omega (arith, read.0),
            slice-write r.offset r.len g.size g.file (body ++ drop (g.size + length body) g.file)
                  read.0 h.sized
                ∙ read.1,
          ))
          h.within,
    );
    sized = length-written g.size g.file body (drop (g.size + length body) g.file) h.sized;
    ahead = λ le. absurd (ground (arith, h.ahead le));
  }

  partial-Kept :
      (held : Held) (bytes : Body) (g : Segment) (next : ℕ)
      → Kept k held (some g) next
      → Kept k held (some (record g { file = write_at g.size bytes g.file })) next
  partial-Kept held bytes g next h = record {
    covered = h.covered;
    within =
        Within-grow k held (some g) _
          (λ r b read. (
            read.0,
            slice-write r.offset r.len g.size g.file (bytes ++ drop (g.size + length bytes) g.file)
                  read.0 h.sized
                ∙ read.1,
          ))
          h.within;
    sized =
        let n = length-written g.size g.file bytes (drop (g.size + length bytes) g.file) h.sized in
        omega (arith, n);
    ahead = λ le. absurd (ground (arith, h.ahead le));
  }

  write_segment-Good :
      (held : Held) (io : Io) (body : Body) (id : ℕ) (o : Option Segment) (s : Spill)
      → length body % 0x1_0000_0000 ≡ length body
      → get id s.segments ≡ o
      → Good k held s
      → AppendedGood held body (write_segment io body id o s)
  unfolding write_segment
  write_segment-Good held io body id none s fits e h = tt
  write_segment-Good held io body id (some g) s fits e h =
      if_elim (AppendedGood held body) (λ v. v) (leb (length body) io.writes) _ _
        (insert-Good k held _ id _ s
          (λ same. written-Kept held body id g s.next_segment same fits (at same))
          (λ differs. record {
            covered = ground (arith, h.covered, differs, ==_iff id k);
            within = ((λ same. elim (differs same) [ ]), h.within);
            sized = h.sized;
            ahead = h.ahead;
          }))
        (insert-Good k held held id _ s
          (λ same. partial-Kept held (take io.writes body) g s.next_segment (at same))
          (λ differs. h))
    where
      at : id ≡ k → Kept k held (some g) s.next_segment
      at same =
          subst (λ o. Kept k held o s.next_segment) (subst (λ j. get j s.segments ≡ some g) same e)
            h

  append_current-Good :
      (held : Held) (io : Io) (body : Body) (o : Option ℕ) (s : Spill)
      → length body % 0x1_0000_0000 ≡ length body
      → Good k held s
      → AppendedGood held body (append_current io body o s)
  unfolding append_current
  append_current-Good held io body none s fits h = tt
  append_current-Good held io body (some id) s fits h =
      write_segment-Good held io body id (get id s.segments) s fits refl h

  append_rolled-Good :
      (held : Held) (io : Io) (body : Body) (r : Bool × Spill)
      → length body % 0x1_0000_0000 ≡ length body
      → Good k held r.1
      → AppendedGood held body (append_rolled io body r)
  unfolding append_rolled
  append_rolled-Good held io body (true, s) fits h =
      append_current-Good held io body s.current s fits h
  append_rolled-Good held io body (false, s) fits h = h

  append_at-Good :
      (held : Held) (io : Io) (body : Body) (o : Option Segment) (s : Spill)
      → length body % 0x1_0000_0000 ≡ length body
      → Good k held s
      → AppendedGood held body (append_at io body o s)
  unfolding append_at
  append_at-Good held io body none s fits h = tt
  append_at-Good held io body (some g) s fits h =
      if_elim (AppendedGood held body) (λ v. v) (leb segment_max_bytes g.size)
        (append_rolled io body (roll io.opens s)) (append_rolled io body (true, s))
        (append_rolled-Good held io body (roll io.opens s) fits (roll-Good k held io.opens s h))
        (append_rolled-Good held io body (true, s) fits h)

  pub append-Good :
      (held : Held) (io : Io) (body : Body) (s : Spill)
      → length body % 0x1_0000_0000 ≡ length body
      → Good k held s
      → AppendedGood held body (append io body s)
  unfolding append
  append-Good held io body s fits h =
      elim s.current
        as (λ o. AppendedGood held body (elim o [
          | none ↦ append_rolled io body (roll io.opens s)
          | some id ↦ append_at io body (get id s.segments) s
        ])) [
          | none ↦
              append_rolled-Good held io body (roll io.opens s) fits (roll-Good k held io.opens s h)
          | some id ↦ append_at-Good held io body (get id s.segments) s fits h
        ]

  count-remove_at :
      (n : ℕ) (held : Held) (r : SpillRef) (b : Body)
      → get_elem? held n ≡ some (r, b)
      → count k (remove_at n held) + (if r.segment == k then 1 else 0) ≡ count k held
  count-remove_at n [] r b e = absurd (ground (arith, e))
  count-remove_at zero ((r', b') ∷ held) r b e =
      let same : r' ≡ r = ground (arith, e) in rw same (ground arith)
  count-remove_at (suc n) (x ∷ held) r b e = ground (arith, count-remove_at n held r b e)

  Within-remove_at :
      (n : ℕ) (held : Held) (g : Option Segment) → Within k held g → Within k (remove_at n held) g
  Within-remove_at n [] g h = tt
  Within-remove_at zero ((r, b) ∷ held) g (h, hs) = hs
  Within-remove_at (suc n) ((r, b) ∷ held) g (h, hs) = (h, Within-remove_at n held g hs)

  -- A reference less, or as many.
  abbrev pub Fewer : (cost : ℕ) → Held → Held → Type 0
  Fewer cost held' held =
      (count k held' + cost ≤ count k held)
      × ((g : Option Segment) → Within k held g → Within k held' g)

  pub Kept-Fewer :
      (held held' : Held) (cost : ℕ) (g : Option Segment) (next : ℕ)
      → Fewer cost held' held
      → Kept k held g next
      → Kept k held' g next
  Kept-Fewer held held' cost g next (le, f) h = record {
    covered = omega (arith, h.covered, le);
    within = f g h.within;
    sized = h.sized;
    ahead = h.ahead;
  }

  abbrev pub cost_of : SpillRef → ℕ
  cost_of r = if r.segment == k then 1 else 0

  Kept-release :
      (held held' : Held) (g : Segment) (next : ℕ) (r : SpillRef)
      → r.segment ≡ k
      → Fewer (cost_of r) held' held
      → Kept k held (some g) next
      → Kept k held' (some (record g { live = saturating_sub g.live 1 })) next
  Kept-release held held' g next r same (le, f) h = record {
    covered = ground (arith, h.covered, le, same, ==_iff r.segment k);
    within = Within-grow k held' (some g) _ (λ r b read. read) (f (some g) h.within);
    sized = h.sized;
    ahead = λ le. absurd (ground (arith, h.ahead le));
  }

  release_from-Good :
      (held held' : Held) (r : SpillRef) (o : Option Segment) (s : Spill)
      → Fewer (cost_of r) held' held
      → get r.segment s.segments ≡ o
      → Good k held s
      → Good k held' (release_from r.segment o s)
  unfolding release_from
  release_from-Good held held' r none s e at h =
      Kept-Fewer held held' (cost_of r) (get k s.segments) s.next_segment e h
  release_from-Good held held' r (some g) s e at h =
      elim (Bool-cases (saturating_sub g.live 1 == 0 && not (is_current r.segment s.current))) [
        | inr stays ↦ rw stays counted
        | inl dead ↦
            rw dead (reclaim-Good k held' r.segment s' (drained (ground (arith, dead))) counted)
      ]
    where
      s' : Spill
      s' = record s {
        segments = insert r.segment (record g { live = saturating_sub g.live 1 }) s.segments;
      }

      counted : Good k held' s'
      counted =
          insert-Good k held held' r.segment (record g { live = saturating_sub g.live 1 }) s
            (λ same. Kept-release held held' g s.next_segment r same e (
              subst (λ o. Kept k held o s.next_segment)
                (subst (λ j. get j s.segments ≡ some g) same at) h))
            (λ _. Kept-Fewer held held' (cost_of r) (get k s.segments) s.next_segment e h)

      drained : (saturating_sub g.live 1 == 0) ≡ true → is_dead (get r.segment s'.segments) ≡ true
      drained dead =
          let there : some (record g { live = saturating_sub g.live 1 })
              ≡ get r.segment s'.segments =
            ground (
              arith,
              ==_iff r.segment r.segment,
              get-insert r.segment r.segment (record g { live = saturating_sub g.live 1 })
                  s.segments,
            ) in
          subst (λ o. is_dead o ≡ true) there dead

  pub release-Good :
      (held held' : Held) (r : SpillRef) (s : Spill)
      → Fewer (cost_of r) held' held
      → Good k held s
      → Good k held' (release r s)
  unfolding release
  release-Good held held' r s e h =
      release_from-Good held held' r (get r.segment s.segments) s e refl h

  pub release_nth-Good :
      (n : ℕ) (held : Held) (r : SpillRef) (b : Body) (s : Spill)
      → get_elem? held n ≡ some (r, b)
      → Good k held s
      → Good k (remove_at n held) (release r s)
  release_nth-Good n held r b s e h =
      release-Good held (remove_at n held) r s
        (omega (arith, count-remove_at n held r b e), Within-remove_at n held) h

  delete_drained-Good :
      (held : Held) (ids : List ℕ) (s : Spill) → Good k held s → Good k held (delete_drained ids s)
  unfolding delete_drained
  delete_drained-Good held [] s h = h
  delete_drained-Good held (id ∷ ids) s h =
      delete_drained-Good held ids (if is_dead (get id s.segments) then delete_segment id s else s)
        (elim (Bool-cases (is_dead (get id s.segments))) [
          | inl dead ↦ rw dead (delete_segment-Good k held id s dead h)
          | inr other ↦ rw other h
        ])

  pub unpin-Good : (held : Held) (s : Spill) → Good k held s → Good k held (unpin s)
  unfolding unpin
  unpin-Good held s h =
      let s' = record s { pins = saturating_sub s.pins 1 } in
      if_elim (Good k held) (λ v. v) (s'.pins == 0)
        (delete_drained s'.deferred_delete (record s' { deferred_delete = [] })) s'
        (delete_drained-Good held s'.deferred_delete (record s' { deferred_delete = [] }) h) h
