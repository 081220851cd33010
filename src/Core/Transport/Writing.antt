-- ===== src/Core/Transport/Writing.antt =====
-- ramqp-core/src/transport/frame.rs: the write side of `FramedTransport`. Large bodies are kept apart
-- from the write buffer, each with the offset at which it belongs.
use r_amqp.Common.{
  ℕ, ◌-◌, Bool, ◌&&◌, leb, ltb, if◌then◌else◌, Option, some, List, [], ◌∷◌, ◌++◌, length, take,
  drop, is_empty,
}
use r_amqp.Core.Performatives.{Bytes}
use r_amqp.Core.Transport.Frame.{
  BodyCodec, encode_amqp_header, encode_amqp_frame, encode_sasl_frame, encode_empty_frame,
}

pub record Writer : Type 0 where
  pub write_buf : Bytes
  pub out_bodies : List (ℕ × Bytes)
  pub vectored : Bool

abbrev pub body_segment_threshold : ℕ
body_segment_threshold = 4096

unfoldable pub append_bytes : Bytes → Writer → Writer
append_bytes b w = record w { write_buf = w.write_buf ++ b }

-- The slices of `flush_gathered` from a position of the write buffer on.
unfoldable pub gather : (pos : ℕ) → List (ℕ × Bytes) → Bytes → Bytes
gather pos [] buf = if ltb pos (length buf) then drop pos buf else []
gather pos ((off, body) ∷ bodies) buf =
    let rest = body ++ gather off bodies buf in
    if ltb pos off then take (off - pos) (drop pos buf) ++ rest else rest

-- What `flush` writes to the stream, and what it leaves.
unfoldable pub flush : Writer → Bytes × Writer
unfolding gather
flush w = if is_empty w.write_buf then ([], w) else (
  if is_empty w.out_bodies then w.write_buf else gather 0 w.out_bodies w.write_buf,
  record w { write_buf = []; out_bodies = [] },
)

pub data Queued (P S : Type 0) : Type 0 where
  queued_amqp : (channel : ℕ) → P → Option Bytes → Queued P S
  queued_transfer : (channel : ℕ) → P → Bytes → Queued P S
  queued_sasl : S → Queued P S
  queued_empty : (channel : ℕ) → Queued P S

module _ {P S : Type 0} (c : BodyCodec P) (d : BodyCodec S) where
  unfoldable pub queue_transfer : (channel : ℕ) → P → Bytes → Writer → Writer
  unfolding append_bytes
  queue_transfer channel p body w =
      let buf = w.write_buf ++ encode_amqp_header c d channel p (length body) in
      if w.vectored && leb body_segment_threshold (length body)
      then record w { write_buf = buf; out_bodies = w.out_bodies ++ ((length buf, body) ∷ []) }
      else append_bytes (encode_amqp_frame c d channel p (some body)) w

  -- `queue_amqp`, `queue_transfer`, `queue_sasl` and `queue_empty`.
  unfoldable pub queue : Queued P S → Writer → Writer
  unfolding queue_transfer append_bytes
  queue (queued_amqp channel p payload) w = append_bytes (encode_amqp_frame c d channel p payload) w
  queue (queued_transfer channel p body) w = queue_transfer channel p body w
  queue (queued_sasl s) w = append_bytes (encode_sasl_frame c d s) w
  queue (queued_empty channel) w = append_bytes (encode_empty_frame c d channel) w

  unfoldable pub queue_all : List (Queued P S) → Writer → Writer
  unfolding queue
  queue_all [] w = w
  queue_all (q ∷ qs) w = queue_all qs (queue q w)
