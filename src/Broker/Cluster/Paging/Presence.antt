-- ===== src/Broker/Cluster/Paging/Presence.antt =====
-- ramqp-broker/src/cluster/paging.rs: the segment that appends go to is there, as long as files open.
use r_amqp.Common.{
  ℕ, ◌≤◌, ◌<◌, ◌≡◌, ◌≢◌, refl, sym, ap, subst, ◌∙◌, inl, inr, arith, true, false, not, ◌&&◌,
  Bool-cases, Option, none, some, List, [], ◌∷◌, ◌++◌, ◌==◌, ==_iff, length, get, remove, insert,
  get-remove, get-insert, if_elim, ltb, leb, saturating_sub, is_some,
}
use r_amqp.Broker.Policy.{Body}
use r_amqp.Broker.Durable.Run.{contains}
use r_amqp.Broker.Cluster.Paging.Reading.{get-fresh_segments}
use r_amqp.Broker.Durable.Moves.{contains-append}
use r_amqp.Broker.Cluster.Paging.{
  SpillRef, Segment, Spill, Io, Appended, panicked, refused, stored, delete_segment, reclaim,
  is_dead, reclaim_drained, fresh_current, roll, write_segment, append_current, append_rolled,
  append_at, append, release_from, release, delete_drained, unpin, is_current, segment_max_bytes,
  open_preserving,
}

-- The current segment is there, and neither it nor an id to come will be deleted.
pub record Present (s : Spill) : Type 0 where
  pub there : (c : ℕ) → s.current ≡ some c → is_some (get c s.segments) ≡ true
  pub spared : (c : ℕ) → s.current ≡ some c → contains c s.deferred_delete ≡ false
  pub below : (c : ℕ) → s.current ≡ some c → c < s.next_segment
  pub spared_ahead : (j : ℕ) → s.next_segment ≤ j → contains j s.deferred_delete ≡ false
  pub none_ahead : (j : ℕ) → s.next_segment ≤ j → get j s.segments ≡ none

-- A segment that is there is replaced.
insert-Present :
    (id : ℕ) (g : Segment) (s : Spill)
    → is_some (get id s.segments) ≡ true
    → Present s
    → Present (record s { segments = insert id g s.segments })
insert-Present id g s some_there h = record {
  there = λ c e. ground (arith, h.there c e, get-insert c id g s.segments);
  spared = h.spared;
  below = h.below;
  spared_ahead = h.spared_ahead;
  none_ahead = λ j le.
      let gone = h.none_ahead j le in
      ground (arith, gone, some_there, get-insert j id g s.segments, ==_iff id j);
}

reclaim-Present :
    (id : ℕ) (s : Spill)
    → ((c : ℕ) → s.current ≡ some c → c ≢ id)
    → id < s.next_segment
    → Present s
    → Present (reclaim id s)
unfolding reclaim delete_segment
reclaim-Present id s differs low h =
    if_elim Present (λ v. v) (ltb 0 s.pins)
      (record s { deferred_delete = s.deferred_delete ++ (id ∷ []) })
      (record s { segments = remove id s.segments })
      (record {
        there = h.there;
        spared = λ c e.
            ground (
              arith,
              h.spared c e,
              contains-append c s.deferred_delete id,
              differs c e,
              ==_iff id c,
            );
        below = h.below;
        spared_ahead = λ j le.
            ground (
              arith,
              h.spared_ahead j le,
              contains-append j s.deferred_delete id,
              low,
              ==_iff id j,
            );
        none_ahead = h.none_ahead;
      })
      (record {
        there = λ c e.
            ground (arith, h.there c e, get-remove c id s.segments, differs c e, ==_iff c id);
        spared = h.spared;
        below = h.below;
        spared_ahead = h.spared_ahead;
        none_ahead = λ j le. ground (arith, h.none_ahead j le, get-remove j id s.segments);
      })

-- The drained segment goes, and the next one takes its place.
Ahead : Spill → Type 0
Ahead s =
    ((j : ℕ) → s.next_segment ≤ j → contains j s.deferred_delete ≡ false)
    × ((j : ℕ) → s.next_segment ≤ j → get j s.segments ≡ none)

reclaim_drained-Ahead :
    (o : Option ℕ) (s : Spill)
    → ((c : ℕ) → o ≡ some c → c < s.next_segment)
    → Ahead s
    → Ahead (reclaim_drained o s)
unfolding reclaim_drained reclaim delete_segment Ahead
reclaim_drained-Ahead none s low h = h
reclaim_drained-Ahead (some old) s low (a, b) =
    if_elim Ahead (λ v. v) (is_dead (get old s.segments)) (reclaim old s) s
      (if_elim Ahead (λ v. v) (ltb 0 s.pins)
        (record s { deferred_delete = s.deferred_delete ++ (old ∷ []) })
        (record s { segments = remove old s.segments })
        (
          λ j le.
              ground (
                arith,
                a j le,
                contains-append j s.deferred_delete old,
                low old refl,
                ==_iff old j,
              ),
          b,
        )
        (a, λ j le. ground (arith, b j le, get-remove j old s.segments)))
      (a, b)

fresh_current-Present : (s : Spill) → Ahead s → Present (fresh_current s)
unfolding fresh_current Ahead
fresh_current-Present s (a, b) = record {
  there = λ c e.
      let at : s.next_segment ≡ c = ground (arith, e) in
      ground (arith, at, ==_iff s.next_segment c);
  spared = λ c e. let at : s.next_segment ≡ c = ground (arith, e) in a c (omega (arith, at));
  below = λ c e. let at : s.next_segment ≡ c = ground (arith, e) in omega (arith, at);
  spared_ahead = λ j le. a j (omega (arith, le));
  none_ahead = λ j le. ground (
    arith,
    b j (omega (arith, le)),
    le,
    ==_iff s.next_segment j,
    get-insert j s.next_segment (record { file = []; live = 0; size = 0 }) s.segments,
  );
}

abbrev pub AppendedPresent : Appended → Type 0
AppendedPresent panicked = ⊥
AppendedPresent (refused s) = Present s
AppendedPresent (stored r s) = Present s

write_segment-Present :
    (io : Io) (body : Body) (id : ℕ) (o : Option Segment) (s : Spill)
    → get id s.segments ≡ o
    → s.current ≡ some id
    → Present s
    → AppendedPresent (write_segment io body id o s)
unfolding write_segment
write_segment-Present io body id none s e at h = ground (arith, h.there id at, e)
write_segment-Present io body id (some g) s e at h =
    if_elim AppendedPresent (λ v. v) (leb (length body) io.writes) _ _
      (insert-Present id _ s (h.there id at) h) (insert-Present id _ s (h.there id at) h)

append_current-Present :
    (io : Io) (body : Body) (id : ℕ) (s : Spill)
    → s.current ≡ some id
    → Present s
    → AppendedPresent (append_current io body s.current s)
unfolding append_current
append_current-Present io body id s at h =
    subst (λ o. AppendedPresent (append_current io body o s)) (sym at)
      (write_segment-Present io body id (get id s.segments) s refl at h)

rolled-Present :
    (io : Io) (body : Body) (s : Spill)
    → Present s
    → AppendedPresent (append_rolled io body (roll true s))
unfolding append_rolled roll fresh_current Ahead
rolled-Present io body s h =
    append_current-Present io body (reclaim_drained s.current s).next_segment
      (fresh_current (reclaim_drained s.current s)) refl
      (fresh_current-Present (reclaim_drained s.current s)
        (reclaim_drained-Ahead s.current s h.below (h.spared_ahead, h.none_ahead)))

append_at-Present :
    (io : Io) (body : Body) (id : ℕ) (o : Option Segment) (s : Spill)
    → io.opens ≡ true
    → get id s.segments ≡ o
    → s.current ≡ some id
    → Present s
    → AppendedPresent (append_at io body o s)
unfolding append_at append_rolled
append_at-Present io body id none s opens e at h = ground (arith, h.there id at, e)
append_at-Present io body id (some g) s opens e at h =
    if_elim AppendedPresent (λ v. v) (leb segment_max_bytes g.size)
      (append_rolled io body (roll io.opens s)) (append_current io body s.current s)
      (subst (λ b. AppendedPresent (append_rolled io body (roll b s))) (sym opens)
        (rolled-Present io body s h))
      (append_current-Present io body id s at h)

-- An append does not panic where the next file opens.
pub append-Present :
    (io : Io) (body : Body) (s : Spill)
    → io.opens ≡ true
    → Present s
    → AppendedPresent (append io body s)
unfolding append
append-Present io body s opens h =
    elim s.current
        as (λ o.
          s.current ≡ o
          → AppendedPresent (elim o [
            | none ↦ append_rolled io body (roll io.opens s)
            | some id ↦ append_at io body (get id s.segments) s
          ])) [
            | none ↦ (λ _.
                subst (λ b. AppendedPresent (append_rolled io body (roll b s))) (sym opens)
                  (rolled-Present io body s h))
            | some id ↦ (λ at. append_at-Present io body id (get id s.segments) s opens refl at h)
          ]
      refl

release_from-Present :
    (id : ℕ) (o : Option Segment) (s : Spill)
    → get id s.segments ≡ o
    → Present s
    → Present (release_from id o s)
unfolding release_from
release_from-Present id none s e h = h
release_from-Present id (some g) s e h =
    elim (Bool-cases (saturating_sub g.live 1 == 0 && not (is_current id s.current))) [
      | inr stays ↦ rw stays s'-Present
      | inl dead ↦ rw dead (
          reclaim-Present id s' (λ c at same. other (ground (arith, dead)) (at ∙ ap some same))
            (ground (arith, h.none_ahead id, e)) s'-Present)
    ]
  where
    s' : Spill
    s' = record s { segments = insert id (record g { live = saturating_sub g.live 1 }) s.segments }

    s'-Present : Present s'
    s'-Present =
        insert-Present id (record g { live = saturating_sub g.live 1 }) s (ground (arith, e)) h

    other : is_current id s.current ≡ false → s.current ≡ some id → ⊥
    other differs at =
        let same : is_current id s.current ≡ true =
          ap (is_current id) at ∙ ground (arith, ==_iff id id) in
        ground (arith, differs, same)

pub release-Present : (r : SpillRef) (s : Spill) → Present s → Present (release r s)
unfolding release
release-Present r s h = release_from-Present r.segment (get r.segment s.segments) s refl h

delete_drained-Present :
    (ids : List ℕ) (s : Spill)
    → ((c : ℕ) → s.current ≡ some c → contains c ids ≡ false)
    → Present s
    → Present (delete_drained ids s)
unfolding delete_drained delete_segment contains
delete_drained-Present [] s f h = h
delete_drained-Present (id ∷ ids) s f h =
    if_elim (λ v. Present (delete_drained ids v)) (λ v. v) (is_dead (get id s.segments))
      (record s { segments = remove id s.segments }) s
      (delete_drained-Present ids (record s { segments = remove id s.segments })
        (λ c e. ground (arith, f c e))
        (record {
          there = λ c e.
              ground
                (arith, h.there c e, get-remove c id s.segments, f c e, ==_iff c id, ==_iff id c);
          spared = h.spared;
          below = h.below;
          spared_ahead = h.spared_ahead;
          none_ahead = λ j le. ground (arith, h.none_ahead j le, get-remove j id s.segments);
        }))
      (delete_drained-Present ids s (λ c e. ground (arith, f c e)) h)

pub unpin-Present : (s : Spill) → Present s → Present (unpin s)
unfolding unpin contains
unpin-Present s h =
    let s' = record s { pins = saturating_sub s.pins 1 } in
    if_elim Present (λ v. v) (s'.pins == 0)
      (delete_drained s'.deferred_delete (record s' { deferred_delete = [] })) s'
      (delete_drained-Present s'.deferred_delete (record s' { deferred_delete = [] }) h.spared
        (record {
          there = h.there;
          spared = λ c e. refl;
          below = h.below;
          spared_ahead = λ j le. refl;
          none_ahead = h.none_ahead;
        }))
      (record {
        there = h.there;
        spared = h.spared;
        below = h.below;
        spared_ahead = h.spared_ahead;
        none_ahead = h.none_ahead;
      })

pub open_preserving-Present :
    (id : ℕ) (files : List (ℕ × Body)) → Present (open_preserving id files)
unfolding open_preserving contains
open_preserving-Present id files = record {
  there = λ c e. absurd (ground (arith, e));
  spared = λ c e. refl;
  below = λ c e. absurd (ground (arith, e));
  spared_ahead = λ j le. refl;
  none_ahead = λ j le. get-fresh_segments j files le;
}
