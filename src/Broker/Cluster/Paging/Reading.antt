-- ===== src/Broker/Cluster/Paging/Reading.antt =====
-- ramqp-broker/src/cluster/paging.rs: a spill store through its calls, with the references that its
-- queue holds, and what they read.
use r_amqp.Common.{
  true, false, ℕ, zero, suc, ◌≤◌, ◌≡◌, refl, subst, arith, Option, none, some, List, [], ◌∷◌, ◌==◌,
  ==_iff, length, get, if_elim, All,
}
use r_amqp.Broker.Policy.{Body}
use r_amqp.Broker.Cluster.Paging.{
  SpillRef, Segment, Spill, Io, Appended, panicked, refused, stored, append, read_segment, read,
  release, pin, unpin,
}
use r_amqp.Common.{get_elem?}
use r_amqp.Common.{remove_at}
use r_amqp.Broker.Cluster.Paging.Outstanding.{Held, Reads, Sized, Within, Good}
use r_amqp.Broker.Cluster.Paging.{fresh_segments, after_files, open_preserving}
use r_amqp.Broker.Cluster.Paging.Calls.{AppendedGood, append-Good, release_nth-Good, unpin-Good}

-- A store with the references that are held on it.
pub record Spilled : Type 0 where
  pub spill : Spill
  pub held : Held

-- A body is spilled, the reference of a settled message is released, a snapshot builder starts or ends.
pub data Call : Type 0 where
  spill_body : Io → Body → Call
  release_nth : ℕ → Call
  hold_pin : Call
  drop_pin : Call

unfoldable pub after_append : Body → Held → Appended → Option Spilled
after_append body held panicked = none
after_append body held (refused s) = some (record { spill = s; held = held })
after_append body held (stored r s) = some (record { spill = s; held = (r, body) ∷ held })

unfoldable pub release_held : ℕ → Option (SpillRef × Body) → Spilled → Spilled
release_held n none v = v
release_held n (some (r, body)) v = record { spill = release r v.spill; held = remove_at n v.held }

-- The store after a call, or none where it panics.
unfoldable pub call : Call → Spilled → Option Spilled
unfolding after_append release_held
call (spill_body io body) v = after_append body v.held (append io body v.spill)
call (release_nth n) v = some (release_held n (get_elem? v.held n) v)
call hold_pin v = some (record v { spill = pin v.spill })
call drop_pin v = some (record v { spill = unpin v.spill })

unfoldable pub calls : List Call → Spilled → Option Spilled
unfolding call
calls [] v = some v
calls (c ∷ cs) v = elim (call c v) [ none ↦ none | some v' ↦ calls cs v' ]

abbrev pub started : (id : ℕ) → List (ℕ × Body) → Spilled
started id files = record { spill = open_preserving id files; held = [] }

-- A body whose length a reference can hold.
abbrev pub IsSpillable : Call → Type 0
IsSpillable (spill_body io body) = length body ≤ 0xffff_ffff
IsSpillable _ = Unit {0}

pub get-fresh_segments :
    (k : ℕ) (files : List (ℕ × Body)) → after_files files ≤ k → get k (fresh_segments files) ≡ none
get-fresh_segments k [] h = refl
get-fresh_segments k ((id, file) ∷ files) h =
    ground (arith, h, get-fresh_segments k files (omega (arith, h)), ==_iff id k)

Sized-fresh_segments : (k : ℕ) (files : List (ℕ × Body)) → Sized k (get k (fresh_segments files))
Sized-fresh_segments k [] = tt
Sized-fresh_segments k ((id, file) ∷ files) =
    if_elim (Sized k) (λ o. o) (id == k)
      (some (record { file = file; live = 0; size = length file })) (get k (fresh_segments files))
      (omega arith) (Sized-fresh_segments k files)

module _ (k : ℕ) where
  pub started-Good : (id : ℕ) (files : List (ℕ × Body)) → Good k [] (open_preserving id files)
  unfolding open_preserving
  started-Good id files = record {
    covered = omega arith;
    within = tt;
    sized = Sized-fresh_segments k files;
    ahead = get-fresh_segments k files;
  }

  abbrev CallGood : Option Spilled → Type 0
  CallGood none = Unit {0}
  CallGood (some v) = Good k v.held v.spill

  after_append-Good :
      (body : Body) (held : Held) (a : Appended)
      → AppendedGood k held body a
      → CallGood (after_append body held a)
  unfolding after_append
  after_append-Good body held panicked h = tt
  after_append-Good body held (refused s) h = h
  after_append-Good body held (stored r s) h = h

  release_held-Good :
      (n : ℕ) (o : Option (SpillRef × Body)) (v : Spilled)
      → get_elem? v.held n ≡ o
      → Good k v.held v.spill
      → Good k (release_held n o v).held (release_held n o v).spill
  unfolding release_held
  release_held-Good n none v e h = h
  release_held-Good n (some (r, b)) v e h = release_nth-Good k n v.held r b v.spill e h

  call-Good : (c : Call) (v : Spilled) → IsSpillable c → Good k v.held v.spill → CallGood (call c v)
  unfolding call pin
  call-Good (spill_body io body) v fits h =
      after_append-Good body v.held (append io body v.spill)
        (append-Good k v.held io body v.spill (omega (arith, fits)) h)
  call-Good (release_nth n) v fits h = release_held-Good n (get_elem? v.held n) v refl h
  call-Good hold_pin v fits h = h
  call-Good drop_pin v fits h = unpin-Good k v.held v.spill h

  calls-Good :
      (cs : List Call) (v : Spilled)
      → All IsSpillable cs
      → Good k v.held v.spill
      → CallGood (calls cs v)
  unfolding calls
  calls-Good [] v fits h = h
  calls-Good (c ∷ cs) v (fit, fits) h =
      elim (call c v)
          as (λ o. CallGood o → CallGood (elim o [ none ↦ none | some v' ↦ calls cs v' ])) [
            | none ↦ (λ _. tt)
            | some v' ↦ calls-Good cs v' fits
          ]
        (call-Good c v fit h)

Within-get_elem? :
    (n : ℕ) (held : Held) (k : ℕ) (g : Option Segment) (r : SpillRef) (b : Body)
    → get_elem? held n ≡ some (r, b)
    → r.segment ≡ k
    → Within k held g
    → Reads k r b g
Within-get_elem? n [] k g r b e same h = absurd (ground (arith, e))
Within-get_elem? zero ((r', b') ∷ held) k g r b e same (h, hs) =
    let at : r' ≡ r = ground (arith, e) in
    let at' : b' ≡ b = ground (arith, e) in
    subst (λ x. x.segment ≡ k → Reads k x b g) at
      (subst (λ y. r'.segment ≡ k → Reads k r' y g) at' h) same
Within-get_elem? (suc n) (x ∷ held) k g r b e same (h, hs) =
    Within-get_elem? n held k g r b e same hs

pub read_segment-Reads :
    (r : SpillRef) (b : Body) (g : Option Segment)
    → Sized r.segment g
    → Reads r.segment r b g
    → read_segment true r g ≡ some b
unfolding read_segment
read_segment-Reads r b none s h = elim h [ ]
read_segment-Reads r b (some g) s (le, e) = ground (arith, le, e, s)

pub read_segment_fails : (r : SpillRef) (g : Option Segment) → read_segment false r g ≡ none
unfolding read_segment
read_segment_fails r none = refl
read_segment_fails r (some g) = refl

-- Whatever bodies are spilled, released and pinned since the store was opened over any files, also where
-- files do not open and writes stop short: a reference that is still held reads back the body that was
-- spilled, if every body is shorter than 4 GiB and the seek and the read of the file succeed.
pub calls-read :
    (id : ℕ) (files : List (ℕ × Body)) (cs : List Call) (v : Spilled)
    → All IsSpillable cs
    → calls cs (started id files) ≡ some v
    → (n : ℕ) (r : SpillRef) (b : Body) → get_elem? v.held n ≡ some (r, b)
    → read true r v.spill ≡ some b
unfolding read
calls-read id files cs v fits ran n r b e =
    let good =
      subst (CallGood r.segment) ran
        (calls-Good r.segment cs (started id files) fits (started-Good r.segment id files)) in
    read_segment-Reads r b (get r.segment v.spill.segments) good.sized
      (Within-get_elem? n v.held r.segment (get r.segment v.spill.segments) r b e refl good.within)
