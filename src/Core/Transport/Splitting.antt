-- ===== src/Core/Transport/Splitting.antt =====
-- ramqp-core/src/transport/frame.rs: a whole frame is split off a buffer and decoded, and less than one
-- waits for more.
use r_amqp.Common.{
  ℕ, ◌+◌, ◌≤◌, ◌<◌, ◌≡◌, refl, arith, sym, ◌∙◌, ap, false, if◌then◌else◌, Option, none, some, [],
  ◌∷◌, ◌++◌, length, take, take-append, is_empty, append_assoc, length-append, be_value,
}
use r_amqp.Core.Performatives.{Bytes}
use r_amqp.Core.Codec.Reading.{ok}
use r_amqp.Core.Transport.Frame.{
  BodyCodec, amqp, sasl, empty, Frame, decoded, needs_more, header, encode_amqp_header,
  encode_amqp_frame, encode_sasl_frame, encode_empty_frame, decode_amqp_body, decode_sasl_body,
  decode_typed, decode_frame, payload_bytes,
}
use r_amqp.Core.Transport.Writing.{Queued, queued_amqp, queued_transfer, queued_sasl, queued_empty}
use r_amqp.Core.Transport.Wire.{bytes_of}
use r_amqp.Core.Transport.Heads.{frame-partial, header-size, header-decode}

-- An empty payload is no payload to the reader.
abbrev pub some_payload : Option Bytes → Option Bytes
some_payload none = none
some_payload (some []) = none
some_payload (some (x ∷ b)) = some (x ∷ b)

payload-read :
    (payload : Option Bytes)
    → (if is_empty (payload_bytes payload) then none else some (payload_bytes payload))
      ≡ some_payload payload
payload-read none = refl
payload-read (some []) = refl
payload-read (some (x ∷ b)) = refl

module _ {P S : Type 0} (c : BodyCodec P) (d : BodyCodec S) where
  -- What the reader makes of a queued frame.
  abbrev pub frame_of : Queued P S → Frame P S
  frame_of (queued_amqp channel p payload) = record {
    channel = channel;
    body = amqp p (some_payload payload);
  }
  frame_of (queued_transfer channel p body) = record {
    channel = channel;
    body = amqp p (some_payload (some body));
  }
  frame_of (queued_sasl s) = record { channel = 0; body = sasl s }
  frame_of (queued_empty channel) = record { channel = channel; body = empty }

  -- The bytes of a body, then its payload, are some bytes, of which the codec reads back the body and
  -- leaves the payload.
  abbrev ReadsBack : P → (payload : Bytes) → Type 0
  ReadsBack p payload =
      (is_empty (c.to_bytes p ++ payload) ≡ false)
      × (c.from_bytes (c.to_bytes p ++ payload) ≡ ok (p, payload))

  abbrev IsValid : Queued P S → Type 0
  IsValid (queued_amqp channel p payload) =
      ReadsBack p (payload_bytes payload) × (channel < 0x1_0000)
  IsValid (queued_transfer channel p body) = ReadsBack p body × (channel < 0x1_0000)
  IsValid (queued_sasl s) = d.from_bytes (d.to_bytes s) ≡ ok (s, [])
  IsValid (queued_empty channel) = channel < 0x1_0000

  -- A frame whose body is read back, on a 16-bit channel, no larger than the reader allows.
  pub record IsSendable (max_frame_size : ℕ) (q : Queued P S) : Type 0 where
    pub valid : IsValid q
    pub fits : length (bytes_of c d q) ≤ max_frame_size

  -- A sendable frame has an explicit header before its content.
  amqp-decode :
      (channel : ℕ) (p : P) (payload : Option Bytes) (rest : Bytes)
      → ReadsBack p (payload_bytes payload)
      → decode_typed c d 0 channel (c.to_bytes p ++ payload_bytes payload) rest
        ≡ decoded (record { channel = channel; body = amqp p (some_payload payload) }) rest
  unfolding decode_typed decode_amqp_body
  amqp-decode channel p payload rest h =
      rw (h.0, h.1)
        (ap (λ x. decoded (record { channel = channel; body = amqp p x }) rest)
          (payload-read payload))

  sasl-decode :
      (s : S) (rest : Bytes)
      → d.from_bytes (d.to_bytes s) ≡ ok (s, [])
      → decode_typed c d 1 0 (d.to_bytes s) rest
        ≡ decoded (record { channel = 0; body = sasl s }) rest
  unfolding decode_typed decode_sasl_body
  sasl-decode s rest h = rw (h, decode_sasl_body) refl

  -- The content of a queued frame, its type and its channel.
  abbrev content_of : Queued P S → Bytes
  content_of (queued_amqp channel p payload) = c.to_bytes p ++ payload_bytes payload
  content_of (queued_transfer channel p body) = c.to_bytes p ++ body
  content_of (queued_sasl s) = d.to_bytes s
  content_of (queued_empty channel) = []

  abbrev ftype_of : Queued P S → ℕ
  ftype_of (queued_sasl s) = 0x01
  ftype_of _ = 0x00

  abbrev channel_of : Queued P S → ℕ
  channel_of (queued_amqp channel p payload) = channel
  channel_of (queued_transfer channel p body) = channel
  channel_of (queued_sasl s) = 0
  channel_of (queued_empty channel) = channel

  amqp-header :
      (channel : ℕ) (p : P) (payload : Option Bytes)
      → encode_amqp_frame c d channel p payload
        ≡ header 0x00 channel (length (c.to_bytes p ++ payload_bytes payload))
          ++ (c.to_bytes p ++ payload_bytes payload)
  unfolding encode_amqp_frame encode_amqp_header header
  amqp-header channel p payload = rw (length-append (c.to_bytes p) (payload_bytes payload)) (
      append_assoc (header 0x00 channel (length (c.to_bytes p) + length (payload_bytes payload)))
        (c.to_bytes p) (payload_bytes payload))

  bytes-header :
      (q : Queued P S)
      → bytes_of c d q ≡ header (ftype_of q) (channel_of q) (length (content_of q)) ++ content_of q
  unfolding bytes_of encode_sasl_frame encode_empty_frame header
  bytes-header (queued_amqp channel p payload) = amqp-header channel p payload
  bytes-header (queued_transfer channel p body) = amqp-header channel p (some body)
  bytes-header (queued_sasl s) = refl
  bytes-header (queued_empty channel) = refl

  content-decode :
      (q : Queued P S) (rest : Bytes)
      → IsValid q
      → decode_typed c d (ftype_of q) (channel_of q) (content_of q) rest ≡ decoded (frame_of q) rest
  unfolding decode_typed decode_amqp_body decode_sasl_body
  content-decode (queued_amqp channel p payload) rest h = amqp-decode channel p payload rest h.0
  content-decode (queued_transfer channel p body) rest h =
      amqp-decode channel p (some body) rest h.0
  content-decode (queued_sasl s) rest h = sasl-decode s rest h
  content-decode (queued_empty channel) rest h = refl

  type-small : (q : Queued P S) → ftype_of q < 256
  type-small (queued_amqp channel p payload) = omega arith
  type-small (queued_transfer channel p body) = omega arith
  type-small (queued_sasl s) = omega arith
  type-small (queued_empty channel) = omega arith

  channel-small : (q : Queued P S) → IsValid q → channel_of q < 0x1_0000
  channel-small (queued_amqp channel p payload) h = h.1
  channel-small (queued_transfer channel p body) h = h.1
  channel-small (queued_sasl s) h = omega arith
  channel-small (queued_empty channel) h = h

  bytes-length : (q : Queued P S) → length (bytes_of c d q) ≡ 8 + length (content_of q)
  unfolding header
  bytes-length q = ap length (bytes-header q) ∙ omega arith

  -- A whole frame at the front of the buffer is decoded, and split off.
  pub queued-decode :
      (max : ℕ) (q : Queued P S) (rest : Bytes)
      → max < 0x1_0000_0000
      → IsSendable max q
      → decode_frame c d max (bytes_of c d q ++ rest) ≡ decoded (frame_of q) rest
  queued-decode max q rest bound h =
      let size : length (bytes_of c d q) ≡ 8 + length (content_of q) = bytes-length q in
      let room : length (bytes_of c d q) ≤ max = h.fits in
      ap (λ b. decode_frame c d max (b ++ rest)) (bytes-header q)
      ∙ header-decode c d max (ftype_of q) (channel_of q) (content_of q) rest (type-small q)
          (channel-small q h.valid) (omega arith) bound
      ∙ content-decode q rest h.valid

  bytes-size :
      (q : Queued P S)
      → length (bytes_of c d q) < 0x1_0000_0000
      → be_value 0 (take 4 (bytes_of c d q)) ≡ length (bytes_of c d q)
  bytes-size q h =
      let size : length (bytes_of c d q) ≡ 8 + length (content_of q) = bytes-length q in
      ap (λ b. be_value 0 (take 4 b)) (bytes-header q)
      ∙ header-size c d (ftype_of q) (channel_of q) (content_of q) (omega arith)
      ∙ sym size

  -- The front of a frame waits for the rest of it.
  pub queued-partial :
      (max : ℕ) (q : Queued P S) (b more tail : Bytes)
      → max < 0x1_0000_0000
      → IsSendable max q
      → b ++ more ≡ bytes_of c d q ++ tail
      → length b < length (bytes_of c d q)
      → decode_frame c d max b ≡ needs_more
  queued-partial max q b more tail bound h e short =
      let size : length (bytes_of c d q) ≡ 8 + length (content_of q) = bytes-length q in
      let room : length (bytes_of c d q) ≤ max = h.fits in
      frame-partial c d max (length (bytes_of c d q)) b
        (λ there.
          ap (be_value 0) (
            sym (take-append 4 b more (omega arith))
            ∙ ap (take 4) e
            ∙ take-append 4 (bytes_of c d q) tail (omega arith))
          ∙ bytes-size q (omega arith))
        (omega arith) room short
