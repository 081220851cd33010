-- ===== src/Core/Transport/Examples.antt =====
-- ramqp-core/src/transport/frame.rs: the theorems on the transport at frames whose bodies are values.
use r_amqp.Common.{All, ◌≡◌, refl, arith, List, [], ◌∷◌, true, sym, ◌∙◌}
use r_amqp.Core.Performatives.{Bytes}
use r_amqp.Core.Codec.Value.{Value, ulong, uint, encode}
use r_amqp.Core.Codec.Value.Decode.{decode}
use r_amqp.Core.Codec.Value.Encodable.{scalar}
use r_amqp.Core.Codec.Value.RoundTrip.{decode-encode}
use r_amqp.Core.Transport.Frame.{
  BodyCodec, encode_amqp_frame, encode_amqp_header, encode_sasl_frame, encode_empty_frame, header,
}
use r_amqp.Core.Transport.Writing.{
  Queued, queued_transfer, queued_sasl, queued_empty, flush, queue_all,
}
use r_amqp.Core.Transport.Wire.{bytes_of, bytes_of_all, flush-queue_all}
use r_amqp.Core.Transport.Reading.{read_frames}
use r_amqp.Core.Transport.Splitting.{IsSendable}
use r_amqp.Core.Transport.Delivery.{joined, AreRead, flush-read_frames}

-- The bodies are self-describing values.
abbrev values : BodyCodec Value
values = record { to_bytes = encode; from_bytes = decode }

abbrev queued : List (Queued Value Value)
queued = queued_transfer 3 (ulong 20) (7 ∷ 8 ∷ []) ∷ queued_sasl (uint 0) ∷ queued_empty 9 ∷ []

flush-queue_all_example :
    (flush (
      queue_all values values queued
        (record { write_buf = []; out_bodies = []; vectored = true }))).0
    ≡ bytes_of_all values values queued
flush-queue_all_example = flush-queue_all values values queued true

-- The bytes in three reads, split within headers.
abbrev reads : List Bytes
reads =
    (0 ∷ 0 ∷ 0 ∷ 12 ∷ 2 ∷ 0 ∷ 0 ∷ [])
    ∷ (3 ∷ 0x53 ∷ 20 ∷ 7 ∷ 8 ∷ 0 ∷ 0 ∷ 0 ∷ 9 ∷ 2 ∷ 1 ∷ 0 ∷ 0 ∷ 0x43 ∷ 0 ∷ [])
    ∷ (0 ∷ 0 ∷ 8 ∷ 2 ∷ 0 ∷ 0 ∷ 9 ∷ [])
    ∷ []

queued-AllSendable : All (IsSendable values values 512) queued
unfolding bytes_of encode_amqp_frame encode_amqp_header encode_sasl_frame encode_empty_frame header
    encode
queued-AllSendable = (
  record {
    valid = ((refl, decode-encode (ulong 20) (7 ∷ 8 ∷ []) (scalar (omega arith))), omega arith);
    fits = omega arith;
  },
  (
    record { valid = decode-encode (uint 0) [] (scalar (omega arith)); fits = omega arith },
    (record { valid = omega arith; fits = omega arith }, tt),
  ),
)

reads-bytes : joined reads ≡ bytes_of_all values values queued
unfolding bytes_of encode_amqp_frame encode_amqp_header encode_sasl_frame encode_empty_frame header
    encode
reads-bytes = refl

flush-read_frames_example :
    AreRead values values 512 queued [] (read_frames values values 512 3 [] reads)
flush-read_frames_example =
    flush-read_frames values values 512 (omega arith) queued true reads queued-AllSendable
      (refl, (refl, (refl, tt))) (reads-bytes ∙ sym (flush-queue_all values values queued true))
