-- ===== src/Core/Transport/Reading.antt =====
-- ramqp-core/src/transport/frame.rs: the read side of `FramedTransport`, on the reads that the stream
-- gives one after the other. A read of no bytes is the end of the stream.
use r_amqp.Common.{
  ℕ, zero, suc, ◌-◌, if◌then◌else◌, Option, none, some, List, [], ◌∷◌, ◌++◌, is_empty, length,
}
use r_amqp.Core.Performatives.{Bytes}
use r_amqp.Core.Transport.Frame.{
  BodyCodec, Frame, FrameError, needs_more, decoded, refused, decode_frame,
}

pub data ReadError : Type 0 where
  peer_closed closed_mid_frame : ReadError
  protocol : FrameError → ReadError

-- A frame with the buffer and the reads that are left, an error, or a wait for the next read.
pub data ReadOutcome (F : Type 0) : Type 0 where
  got : F → (read_buf : Bytes) → (reads : List Bytes) → (last_read_size : ℕ) → ReadOutcome F
  read_failed : ReadError → ReadOutcome F
  waiting : (read_buf : Bytes) → ReadOutcome F

-- A frame before others, with the buffer and the reads that are left after them.
unfoldable pub frame_and :
    {F : Type 0} → F → Option (List F × Bytes × List Bytes) → Option (List F × Bytes × List Bytes)
frame_and f none = none
frame_and f (some (fs, buf, reads)) = some (f ∷ fs, buf, reads)

unfoldable pub and_frames :
    {F : Type 0}
    → (Bytes → List Bytes → Option (List F × Bytes × List Bytes))
    → ReadOutcome F
    → Option (List F × Bytes × List Bytes)
and_frames more (got f buf reads size) = frame_and f (more buf reads)
and_frames more (read_failed e) = none
and_frames more (waiting buf) = none

module _ {P S : Type 0} (c : BodyCodec P) (d : BodyCodec S) (max_frame_size : ℕ) where
  unfoldable pub read_frame : (read_buf : Bytes) → (reads : List Bytes) → ReadOutcome (Frame P S)
  read_frame buf [] = elim (decode_frame c d max_frame_size buf) [
    | decoded f rest ↦ got f rest [] (length buf - length rest)
    | refused e ↦ read_failed (protocol e)
    | needs_more ↦ waiting buf
  ]
  read_frame buf (r ∷ reads) =
      let later = read_frame (buf ++ r) reads in
      elim (decode_frame c d max_frame_size buf) [
        | decoded f rest ↦ got f rest (r ∷ reads) (length buf - length rest)
        | refused e ↦ read_failed (protocol e)
        | needs_more ↦
            if is_empty r
            then read_failed (if is_empty buf then peer_closed else closed_mid_frame)
            else later
      ]

  -- The first frames of a stream, with the buffer and the reads that are left.
  unfoldable pub read_frames :
      (frames : ℕ) → Bytes → List Bytes → Option (List (Frame P S) × Bytes × List Bytes)
  read_frames zero buf reads = some ([], buf, reads)
  read_frames (suc n) buf reads = and_frames (read_frames n) (read_frame buf reads)
