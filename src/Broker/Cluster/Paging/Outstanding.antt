-- ===== src/Broker/Cluster/Paging/Outstanding.antt =====
-- ramqp-broker/src/cluster/paging.rs: the bodies that were spilled and not released, and the segment
-- that holds them.
use r_amqp.Common.{
  ℕ, ◌+◌, ◌≤◌, ◌≡◌, ◌≢◌, refl, sym, subst, inl, inr, arith, Bool, true, false, Bool-cases, Option,
  none, some, List, [], ◌∷◌, ◌++◌, ◌==◌, if◌then◌else◌, ==_iff, length, get, insert, get-remove,
  get-insert, if_elim, ltb,
}
use r_amqp.Broker.Policy.{Body}
use r_amqp.Broker.Cluster.Paging.{
  SpillRef, Segment, Spill, delete_segment, reclaim, is_dead, reclaim_drained, fresh_current, roll,
  slice,
}

-- The references that are held, with what was spilled.
abbrev pub Held : Type 0
Held = List (SpillRef × Body)

module _ (k : ℕ) where
  abbrev pub count : Held → ℕ
  count [] = 0
  count ((r, b) ∷ held) = (if r.segment == k then 1 else 0) + count held

  abbrev pub live_of : Option Segment → ℕ
  live_of none = 0
  live_of (some g) = g.live

  abbrev pub Reads : SpillRef → Body → Option Segment → Type 0
  Reads r b none = ⊥
  Reads r b (some g) = (r.offset + r.len ≤ g.size) × (slice r.offset r.len g.file ≡ b)

  abbrev pub Sized : Option Segment → Type 0
  Sized none = Unit {0}
  Sized (some g) = g.size ≤ length g.file

  abbrev pub Within : Held → Option Segment → Type 0
  Within [] g = Unit {0}
  Within ((r, b) ∷ held) g = (r.segment ≡ k → Reads r b g) × Within held g

  -- Of a segment: it counts its references, and each of them reads what was spilled.
  pub record Kept (held : Held) (g : Option Segment) (next : ℕ) : Type 0 where
    pub covered : count held ≤ live_of g
    pub within : Within held g
    pub sized : Sized g
    pub ahead : next ≤ k → g ≡ none

  abbrev pub Good : Held → Spill → Type 0
  Good held s = Kept held (get k s.segments) s.next_segment

  Within-empty : (held : Held) (g : Option Segment) → count held ≡ 0 → Within held g
  Within-empty [] g e = tt
  Within-empty ((r, b) ∷ held) g e = (
    λ same. let impossible : ⊥ = ground (arith, e, same, ==_iff r.segment k) in elim impossible [ ],
    Within-empty held g (omega (arith, e)),
  )

  pub Within-grow :
      (held : Held) (g g' : Option Segment)
      → ((r : SpillRef) (b : Body) → Reads r b g → Reads r b g')
      → Within held g
      → Within held g'
  Within-grow [] g g' f h = tt
  Within-grow ((r, b) ∷ held) g g' f (h, hs) = (λ e. f r b (h e), Within-grow held g g' f hs)

  Kept-dead :
      (held : Held) (g : Option Segment) (next : ℕ)
      → live_of g ≡ 0
      → Kept held g next
      → Kept held none next
  Kept-dead held g next e h = record {
    covered = omega (arith, e, h.covered);
    within = Within-empty held none (omega (arith, e, h.covered));
    sized = tt;
    ahead = λ _. refl;
  }

  live-is_dead : (g : Option Segment) → is_dead g ≡ true → live_of g ≡ 0
  live-is_dead none e = refl
  live-is_dead (some g) e = (==_iff g.live 0).0 e

  pub delete_segment-Good :
      (held : Held) (id : ℕ) (s : Spill)
      → is_dead (get id s.segments) ≡ true
      → Good held s
      → Good held (delete_segment id s)
  unfolding delete_segment
  delete_segment-Good held id s dead h = elim (Bool-cases (k == id)) [
    | inr other ↦
        subst (λ g. Kept held g s.next_segment) (ground (arith, get-remove k id s.segments, other))
          h
    | inl same ↦
        let e = (==_iff k id).0 same in
        subst (λ g. Kept held g s.next_segment) (ground (arith, get-remove k id s.segments, same))
          (Kept-dead held (get k s.segments) s.next_segment
            (live-is_dead (get k s.segments)
              (subst (λ j. is_dead (get j s.segments) ≡ true) (sym e) dead))
            h)
  ]

  pub reclaim-Good :
      (held : Held) (id : ℕ) (s : Spill)
      → is_dead (get id s.segments) ≡ true
      → Good held s
      → Good held (reclaim id s)
  unfolding reclaim
  reclaim-Good held id s dead h =
      if_elim (Good held) (λ v. v) (ltb 0 s.pins)
        (record s { deferred_delete = s.deferred_delete ++ (id ∷ []) }) (delete_segment id s) h
        (delete_segment-Good held id s dead h)

  reclaim_drained-Good :
      (held : Held) (o : Option ℕ) (s : Spill) → Good held s → Good held (reclaim_drained o s)
  unfolding reclaim_drained
  reclaim_drained-Good held none s h = h
  reclaim_drained-Good held (some old) s h = elim (Bool-cases (is_dead (get old s.segments))) [
    | inl dead ↦ rw dead (reclaim-Good held old s dead h)
    | inr other ↦ rw other h
  ]

  -- A segment of the map is replaced by one that keeps what its references read.
  pub insert-Good :
      (held held' : Held) (id : ℕ) (g : Segment) (s : Spill)
      → (id ≡ k → Kept held' (some g) s.next_segment)
      → (id ≢ k → Good held' s)
      → Good held' (record s { segments = insert id g s.segments })
  insert-Good held held' id g s own other = elim (Bool-cases (id == k)) [
    | inl same ↦
        subst (λ o. Kept held' o s.next_segment)
          (ground (arith, same, get-insert k id g s.segments, ==_iff k id, ==_iff id k))
          (own ((==_iff id k).0 same))
    | inr differs ↦
        subst (λ o. Kept held' o s.next_segment)
          (ground (arith, differs, get-insert k id g s.segments, ==_iff k id, ==_iff id k))
          (other (λ e. ground (arith, e, differs)))
  ]

  next-reclaim_drained :
      (o : Option ℕ) (s : Spill) → (reclaim_drained o s).next_segment ≡ s.next_segment
  unfolding reclaim_drained reclaim delete_segment
  next-reclaim_drained none s = refl
  next-reclaim_drained (some old) s = ground arith

  pub Kept-next :
      (held : Held) (g : Option Segment) (next : ℕ) → Kept held g next → Kept held g (next + 1)
  Kept-next held g next h = record {
    covered = h.covered;
    within = h.within;
    sized = h.sized;
    ahead = λ le. h.ahead (omega (arith, le));
  }

  fresh_current-Good : (held : Held) (s : Spill) → Good held s → Good held (fresh_current s)
  unfolding fresh_current
  fresh_current-Good held s h =
      insert-Good held held s.next_segment (record { file = []; live = 0; size = 0 })
        (record s { next_segment = s.next_segment + 1; current = some s.next_segment })
        (λ same.
          let gone = h.ahead (omega (arith, same)) in
          let none_held : count held ≡ 0 = ground (arith, h.covered, gone) in
          record {
            covered = omega (arith, none_held);
            within = Within-empty held _ none_held;
            sized = omega arith;
            ahead = λ le. absurd (omega (arith, le, same));
          })
        (λ _. Kept-next held (get k s.segments) s.next_segment h)

  pub roll-Good :
      (held : Held) (opens : Bool) (s : Spill) → Good held s → Good held (roll opens s).1
  unfolding roll
  roll-Good held true s h =
      fresh_current-Good held (reclaim_drained s.current s)
        (reclaim_drained-Good held s.current s h)
  roll-Good held false s h =
      Kept-next held (get k (reclaim_drained s.current s).segments)
        (reclaim_drained s.current s).next_segment (reclaim_drained-Good held s.current s h)
