-- ===== src/Core/Transport/Frame.antt =====
-- ramqp-core/src/transport/frame.rs: encoding of a frame, and decoding of the first one of a buffer.
use r_amqp.Common.{
  ℕ, ◌+◌, ◌-◌, ◌*◌, ◌||◌, ltb, ◌==◌, if◌then◌else◌, Option, none, some, [], ◌∷◌, ◌++◌, length, take,
  drop, is_empty, be_bytes, be_value,
}
use r_amqp.Core.Performatives.{Bytes}
use r_amqp.Core.Codec.Reading.{DecodeError, ok, err, Reader}

-- The two functions by which the transport writes and reads its frame bodies. Nothing is asked of them.
pub record BodyCodec (P : Type 0) : Type 0 where
  pub to_bytes : P → Bytes
  pub from_bytes : Reader P

pub data FrameBody (P S : Type 0) : Type 0 where
  amqp : P → Option Bytes → FrameBody P S
  sasl : S → FrameBody P S
  empty : FrameBody P S

pub record Frame (P S : Type 0) : Type 0 where
  pub channel : ℕ
  pub body : FrameBody P S

pub data FrameError : Type 0 where
  below_header above_max invalid_offset truncated_header : FrameError
  unknown_type : ℕ → FrameError
  malformed : DecodeError → FrameError

-- `Ok(None)`, `Ok(Some(frame))` with the buffer that is left, and `Err`.
pub data Decoded (F : Type 0) : Type 0 where
  needs_more : Decoded F
  decoded : F → (rest : Bytes) → Decoded F
  refused : FrameError → Decoded F

abbrev pub frame_header_len : ℕ
frame_header_len = 8

-- The header of a frame whose body has the given length in all.
unfoldable pub header : (ftype channel body_len : ℕ) → Bytes
header ftype channel body_len =
    be_bytes 4 (frame_header_len + body_len) ++ (2 ∷ ftype ∷ be_bytes 2 channel)

abbrev pub payload_bytes : Option Bytes → Bytes
payload_bytes none = []
payload_bytes (some b) = b

module _ {P S : Type 0} (c : BodyCodec P) (d : BodyCodec S) where
  -- The payload is not written here, but its length is in the frame's size.
  unfoldable pub encode_amqp_header : (channel : ℕ) → P → (trailing : ℕ) → Bytes
  unfolding header
  encode_amqp_header channel p trailing =
      header 0x00 channel (length (c.to_bytes p) + trailing) ++ c.to_bytes p

  unfoldable pub encode_amqp_frame : (channel : ℕ) → P → Option Bytes → Bytes
  unfolding encode_amqp_header
  encode_amqp_frame channel p payload =
      encode_amqp_header channel p (length (payload_bytes payload)) ++ payload_bytes payload

  unfoldable pub encode_sasl_frame : S → Bytes
  unfolding header
  encode_sasl_frame s = header 0x01 0 (length (d.to_bytes s)) ++ d.to_bytes s

  unfoldable pub encode_empty_frame : (channel : ℕ) → Bytes
  unfolding header
  encode_empty_frame channel = header 0x00 channel 0

  unfoldable pub decode_amqp_body : (channel : ℕ) → Bytes → (rest : Bytes) → Decoded (Frame P S)
  decode_amqp_body channel b rest =
      if is_empty b
      then decoded (record { channel = channel; body = empty }) rest
      else elim (c.from_bytes b) [
        | err e ↦ refused (malformed e)
        | ok (p, left) ↦
            decoded
              (record {
                channel = channel;
                body = amqp p (if is_empty left then none else some left);
              })
              rest
      ]

  unfoldable pub decode_sasl_body : (channel : ℕ) → Bytes → (rest : Bytes) → Decoded (Frame P S)
  decode_sasl_body channel b rest = elim (d.from_bytes b) [
    | err e ↦ refused (malformed e)
    | ok (s, left) ↦ decoded (record { channel = channel; body = sasl s }) rest
  ]

  unfoldable pub decode_typed : (ftype channel : ℕ) → Bytes → (rest : Bytes) → Decoded (Frame P S)
  decode_typed ftype channel b rest =
      if ftype == 0x00
      then decode_amqp_body channel b rest
      else if ftype == 0x01
      then decode_sasl_body channel b rest
      else refused (unknown_type ftype)

  -- A frame of its size, split off the buffer.
  unfoldable pub decode_whole : (size : ℕ) → (frame rest : Bytes) → Decoded (Frame P S)
  decode_whole size frame rest =
      let doff = be_value 0 (take 1 (drop 4 frame)) in
      let ftype = be_value 0 (take 1 (drop 5 frame)) in
      let channel = be_value 0 (take 2 (drop 6 frame)) in
      let after = drop 8 frame in
      if ltb (doff * 4) frame_header_len || ltb size (doff * 4)
      then refused invalid_offset
      else if ltb (length after) (doff * 4 - frame_header_len)
      then refused truncated_header
      else decode_typed ftype channel (drop (doff * 4 - frame_header_len) after) rest

  unfoldable pub decode_frame : (max_frame_size : ℕ) → Bytes → Decoded (Frame P S)
  decode_frame max_frame_size src =
      let size = be_value 0 (take 4 src) in
      if ltb (length src) frame_header_len
      then needs_more
      else if ltb size frame_header_len
      then refused below_header
      else if ltb max_frame_size size
      then refused above_max
      else if ltb (length src) size
      then needs_more
      else decode_whole size (take size src) (drop size src)
