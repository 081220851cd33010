-- ===== src/Broker/Cluster/Paging.antt =====
-- ramqp-broker/src/cluster/paging.rs: the spill store of a queue. A segment's file is the list of its
-- bytes; whether a file opens, how many bytes of a write get there, and whether a file can be read,
-- come from outside.
pub mod Bytes
pub mod Outstanding
pub mod Calls
pub mod Reading
pub mod Rolling
pub mod Presence
pub mod Identity
mod Examples
use r_amqp.Common.{
  ℕ, zero, suc, ◌+◌, ◌*◌, ◌%◌, Bool, true, false, not, ◌&&◌, Option, none, some, List, [], ◌∷◌,
  ◌++◌, leb, ltb, ◌==◌, if◌then◌else◌, length, take, drop, map, max, get, remove, insert, unwrap_or,
  saturating_sub, ◌||◌,
}
use r_amqp.Broker.Policy.{Body}

abbrev pub segment_max_bytes : ℕ
segment_max_bytes = 67108864

pub record SpillRef : Type 0 where
  pub segment : ℕ
  pub offset : ℕ
  pub len : ℕ

pub record Segment : Type 0 where
  pub file : Body
  pub live : ℕ
  pub size : ℕ

-- `Inner`, without its directory.
pub record Spill : Type 0 where
  pub id : ℕ
  pub next_segment : ℕ
  pub current : Option ℕ
  pub segments : List (ℕ × Segment)
  pub pins : ℕ
  pub deferred_delete : List ℕ

abbrev pub fresh_segments : List (ℕ × Body) → List (ℕ × Segment)
fresh_segments [] = []
fresh_segments ((id, file) ∷ files) =
    (id, record { file = file; live = 0; size = length file }) ∷ fresh_segments files

abbrev pub after_files : List (ℕ × Body) → ℕ
after_files [] = 0
after_files ((id, file) ∷ files) = max (after_files files) (id + 1)

-- `open_preserving`, on the segment files of the directory and the identity that it holds.
unfoldable pub open_preserving : (id : ℕ) → (files : List (ℕ × Body)) → Spill
open_preserving id files = record {
  id = id;
  next_segment = after_files files;
  current = none;
  segments = fresh_segments files;
  pins = 0;
  deferred_delete = [];
}

unfoldable pub delete_segment : ℕ → Spill → Spill
delete_segment id s = record s { segments = remove id s.segments }

abbrev pub is_current : ℕ → Option ℕ → Bool
is_current id none = false
is_current id (some c) = c == id

-- `set_live` on one segment: its count, and whether it goes.
unfoldable pub set_live_of : (counts : List (ℕ × ℕ)) → (id : ℕ) → Segment → Spill → Spill
unfolding delete_segment
set_live_of counts id g s =
    let live' = unwrap_or (get id counts) 0 in
    let s' = record s { segments = insert id (record g { live = live' }) s.segments } in
    if live' == 0 && not (is_current id s.current) then delete_segment id s' else s'

unfoldable pub set_live_all : (counts : List (ℕ × ℕ)) → List (ℕ × Segment) → Spill → Spill
unfolding set_live_of
set_live_all counts [] s = s
set_live_all counts ((id, g) ∷ segs) s = set_live_all counts segs (set_live_of counts id g s)

unfoldable pub set_live : (counts : List (ℕ × ℕ)) → Spill → Spill
unfolding set_live_all
set_live counts s = set_live_all counts s.segments s

-- A write at an offset, of which so many bytes get to the file.
abbrev pub write_at : (offset : ℕ) → Body → Body → Body
write_at offset bytes file = take offset file ++ (bytes ++ drop (offset + length bytes) file)

-- What a call finds of the file system.
pub record Io : Type 0 where
  pub opens : Bool
  pub writes : ℕ
  pub reads : Bool

pub data Appended : Type 0 where
  panicked : Appended
  refused : Spill → Appended
  stored : SpillRef → Spill → Appended

-- The segment is deleted, or will be when the last snapshot builder is done.
unfoldable pub reclaim : ℕ → Spill → Spill
unfolding delete_segment
reclaim id s =
    if ltb 0 s.pins
    then record s { deferred_delete = s.deferred_delete ++ (id ∷ []) }
    else delete_segment id s

abbrev pub is_dead : Option Segment → Bool
is_dead none = false
is_dead (some g) = g.live == 0

-- The outgoing current segment, when it is drained.
unfoldable pub reclaim_drained : Option ℕ → Spill → Spill
unfolding reclaim
reclaim_drained none s = s
reclaim_drained (some old) s = if is_dead (get old s.segments) then reclaim old s else s

unfoldable pub fresh_current : Spill → Spill
fresh_current s = record s {
  next_segment = s.next_segment + 1;
  segments = insert s.next_segment (record { file = []; live = 0; size = 0 }) s.segments;
  current = some s.next_segment;
}

-- The roll: an id is taken even where its file does not open.
unfoldable pub roll : (opens : Bool) → Spill → Bool × Spill
unfolding reclaim_drained fresh_current
roll opens s =
    let s' = reclaim_drained s.current s in
    if opens
    then (true, fresh_current s')
    else (false, record s' { next_segment = s'.next_segment + 1 })

unfoldable pub write_segment : Io → Body → (id : ℕ) → Option Segment → Spill → Appended
write_segment io body id none s = panicked
write_segment io body id (some g) s =
    if leb (length body) io.writes
    then stored (record { segment = id; offset = g.size; len = length body % 0x1_0000_0000 })
        (record s {
          segments =
              insert id
                (record {
                  file = write_at g.size body g.file;
                  live = g.live + 1;
                  size = g.size + length body;
                })
                s.segments;
        })
    else refused (record s {
      segments =
          insert id (record g { file = write_at g.size (take io.writes body) g.file }) s.segments;
    })

-- The write to the current segment.
unfoldable pub append_current : Io → Body → Option ℕ → Spill → Appended
unfolding write_segment
append_current io body none s = panicked
append_current io body (some id) s = write_segment io body id (get id s.segments) s

unfoldable pub append_rolled : Io → Body → Bool × Spill → Appended
unfolding append_current
append_rolled io body (true, s) = append_current io body s.current s
append_rolled io body (false, s) = refused s

-- A segment over its size is rolled; the segment of `current` must be there.
unfoldable pub append_at : Io → Body → Option Segment → Spill → Appended
unfolding append_rolled roll
append_at io body none s = panicked
append_at io body (some g) s =
    if leb segment_max_bytes g.size
    then append_rolled io body (roll io.opens s)
    else append_rolled io body (true, s)

unfoldable pub append : Io → Body → Spill → Appended
unfolding append_at
append io body s = elim s.current [
  | none ↦ append_rolled io body (roll io.opens s)
  | some id ↦ append_at io body (get id s.segments) s
]

abbrev pub slice : (offset len : ℕ) → Body → Body
slice offset len file = take len (drop offset file)

-- Both a seek or a read that fails and a file that ends too early are errors.
unfoldable pub read_segment : (reads : Bool) → SpillRef → Option Segment → Option Body
read_segment reads r none = none
read_segment reads r (some g) =
    if reads && (r.len == 0 || leb (r.offset + r.len) (length g.file))
    then some (slice r.offset r.len g.file)
    else none

unfoldable pub read : (reads : Bool) → SpillRef → Spill → Option Body
unfolding read_segment
read reads r s = read_segment reads r (get r.segment s.segments)

unfoldable pub release_from : ℕ → Option Segment → Spill → Spill
unfolding reclaim
release_from id none s = s
release_from id (some g) s =
    let live' = saturating_sub g.live 1 in
    let s' = record s { segments = insert id (record g { live = live' }) s.segments } in
    if live' == 0 && not (is_current id s.current) then reclaim id s' else s'

unfoldable pub release : SpillRef → Spill → Spill
unfolding release_from
release r s = release_from r.segment (get r.segment s.segments) s

unfoldable pub pin : Spill → Spill
pin s = record s { pins = s.pins + 1 }

unfoldable pub delete_drained : List ℕ → Spill → Spill
unfolding delete_segment
delete_drained [] s = s
delete_drained (id ∷ ids) s =
    delete_drained ids (if is_dead (get id s.segments) then delete_segment id s else s)

unfoldable pub unpin : Spill → Spill
unfolding delete_drained
unpin s =
    let s' = record s { pins = saturating_sub s.pins 1 } in
    if s'.pins == 0
    then delete_drained s'.deferred_delete (record s' { deferred_delete = [] })
    else s'
