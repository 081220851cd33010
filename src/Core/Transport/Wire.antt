-- ===== src/Core/Transport/Wire.antt =====
-- ramqp-core/src/transport/frame.rs: what the queued frames are on the stream, whether the stream takes
-- gathered writes or not.
use r_amqp.Common.{
  ℕ, ◌≡◌, refl, arith, sym, ◌∙◌, ap, inl, inr, Bool, true, false, Bool-cases, ◌&&◌, leb, some, List,
  [], ◌∷◌, ◌++◌, length, is_empty, append-nil, append_assoc, length-append,
}
use r_amqp.Core.Performatives.{Bytes}
use r_amqp.Core.Transport.Frame.{
  BodyCodec, header, encode_amqp_header, encode_amqp_frame, encode_sasl_frame, encode_empty_frame,
}
use r_amqp.Core.Transport.Writing.{
  Writer, body_segment_threshold, append_bytes, flush, Queued, queued_amqp, queued_transfer,
  queued_sasl, queued_empty, queue_transfer, queue, queue_all,
}
use r_amqp.Core.Transport.Gather.{
  IsOrdered, IsOrdered-longer, IsOrdered-last, gather_all, gather-all, gather_all-append,
  gather_all-last,
}

-- Bodies stand at rising offsets of the buffer, and none stands in an empty one.
pub record IsTidy (w : Writer) : Type 0 where
  pub ordered : IsOrdered 0 w.out_bodies (length w.write_buf)
  pub held : is_empty w.write_buf ≡ true → is_empty w.out_bodies ≡ true

abbrev wire : Writer → Bytes
wire w = gather_all 0 w.out_bodies w.write_buf

pub empty-nil : {A : Type 0} (xs : List A) → is_empty xs ≡ true → xs ≡ []
empty-nil [] e = refl
empty-nil (x ∷ xs) e = ground (arith, e)

is_empty-append : {A : Type 0} (xs ys : List A) → is_empty (xs ++ ys) ≡ true → is_empty xs ≡ true
is_empty-append [] ys e = refl
is_empty-append (x ∷ xs) ys e = e

is_empty-append-more :
    {A : Type 0} (xs ys : List A) → is_empty ys ≡ false → is_empty (xs ++ ys) ≡ false
is_empty-append-more [] ys e = e
is_empty-append-more (x ∷ xs) ys e = refl

flush-wire : (w : Writer) → IsTidy w → (flush w).0 ≡ wire w
unfolding flush
flush-wire w t = elim (Bool-cases (is_empty w.write_buf)) [
  | inl e ↦ rw (e, empty-nil w.out_bodies (t.held e), empty-nil w.write_buf e) refl
  | inr e ↦ elim (Bool-cases (is_empty w.out_bodies)) [
    | inl e' ↦ rw (e, e', empty-nil w.out_bodies e') refl
    | inr e' ↦ rw (e, e') (gather-all 0 w.out_bodies w.write_buf t.ordered)
  ]
]

append_bytes-IsTidy : (b : Bytes) (w : Writer) → IsTidy w → IsTidy (append_bytes b w)
unfolding append_bytes
append_bytes-IsTidy b w t = record {
  ordered =
      rw (length-append w.write_buf b)
        (IsOrdered-longer 0 w.out_bodies (length w.write_buf) (length b) t.ordered);
  held = λ e. t.held (is_empty-append w.write_buf b e);
}

append_bytes-wire : (b : Bytes) (w : Writer) → IsTidy w → wire (append_bytes b w) ≡ wire w ++ b
unfolding append_bytes
append_bytes-wire b w t = gather_all-append 0 w.out_bodies w.write_buf b t.ordered

module _ {P S : Type 0} (c : BodyCodec P) (d : BodyCodec S) where
  -- The bytes of a queued frame.
  unfoldable pub bytes_of : Queued P S → Bytes
  bytes_of (queued_amqp channel p payload) = encode_amqp_frame c d channel p payload
  bytes_of (queued_transfer channel p body) = encode_amqp_frame c d channel p (some body)
  bytes_of (queued_sasl s) = encode_sasl_frame c d s
  bytes_of (queued_empty channel) = encode_empty_frame c d channel

  abbrev pub bytes_of_all : List (Queued P S) → Bytes
  bytes_of_all [] = []
  bytes_of_all (q ∷ qs) = bytes_of q ++ bytes_of_all qs

  -- A frame is queued at the end of the wire.
  abbrev IsQueued : Bytes → Writer → Writer → Type 0
  IsQueued b w w' = IsTidy w' × (wire w' ≡ wire w ++ b)

  append_bytes-IsQueued : (b : Bytes) (w : Writer) → IsTidy w → IsQueued b w (append_bytes b w)
  append_bytes-IsQueued b w t = (append_bytes-IsTidy b w t, append_bytes-wire b w t)

  segment-IsQueued :
      (channel : ℕ) (p : P) (body : Bytes) (w : Writer)
      → IsTidy w
      → IsQueued (encode_amqp_frame c d channel p (some body)) w (record w {
        write_buf = w.write_buf ++ encode_amqp_header c d channel p (length body);
        out_bodies =
            w.out_bodies
            ++ ((length (w.write_buf ++ encode_amqp_header c d channel p (length body)), body)
                ∷ []);
      })
  unfolding encode_amqp_frame encode_amqp_header header append_bytes
  segment-IsQueued channel p body w t =
      let h : Bytes = encode_amqp_header c d channel p (length body) in
      let buf : Bytes = w.write_buf ++ h in
      let (t', e) = append_bytes-IsQueued h w t in
      let some_bytes : is_empty buf ≡ false = is_empty-append-more w.write_buf h refl in
      (
        record {
          ordered = IsOrdered-last 0 w.out_bodies (length buf) body t'.ordered;
          held = λ x. let impossible : ⊥ = ground (arith, x, some_bytes) in elim impossible [ ];
        },
        gather_all-last 0 w.out_bodies buf body t'.ordered
            ∙ ap (λ b. b ++ body) e
            ∙ append_assoc (wire w) h body,
      )

  queue_transfer-IsQueued :
      (channel : ℕ) (p : P) (body : Bytes) (w : Writer)
      → IsTidy w
      → IsQueued
          (encode_amqp_frame c d channel p (some body))
          w
          (queue_transfer c d channel p body w)
  unfolding queue_transfer
  queue_transfer-IsQueued channel p body w t =
      elim (Bool-cases (w.vectored && leb body_segment_threshold (length body))) [
        | inl e ↦ rw e (segment-IsQueued channel p body w t)
        | inr e ↦ rw e (append_bytes-IsQueued (encode_amqp_frame c d channel p (some body)) w t)
      ]

  queue-IsQueued :
      (q : Queued P S) (w : Writer) → IsTidy w → IsQueued (bytes_of q) w (queue c d q w)
  unfolding queue bytes_of
  queue-IsQueued (queued_amqp channel p payload) w t = append_bytes-IsQueued _ w t
  queue-IsQueued (queued_transfer channel p body) w t = queue_transfer-IsQueued channel p body w t
  queue-IsQueued (queued_sasl s) w t = append_bytes-IsQueued _ w t
  queue-IsQueued (queued_empty channel) w t = append_bytes-IsQueued _ w t

  queue_all-IsQueued :
      (qs : List (Queued P S)) (w : Writer)
      → IsTidy w
      → IsQueued (bytes_of_all qs) w (queue_all c d qs w)
  unfolding queue_all
  queue_all-IsQueued [] w t = (t, sym (append-nil (wire w)))
  queue_all-IsQueued (q ∷ qs) w t =
      let (t', e) = queue-IsQueued q w t in
      let (t'', e') = queue_all-IsQueued qs (queue c d q w) t' in
      (
        t'',
        e'
            ∙ ap (λ b. b ++ bytes_of_all qs) e
            ∙ append_assoc (wire w) (bytes_of q) (bytes_of_all qs),
      )

  -- Any frames that are queued on an empty writer are flushed as their encodings one after the other,
  -- whether large bodies are gathered from outside the write buffer or copied into it.
  pub flush-queue_all :
      (qs : List (Queued P S)) (vectored : Bool)
      → (flush
          (queue_all c d qs (record { write_buf = []; out_bodies = []; vectored = vectored }))).0
        ≡ bytes_of_all qs
  flush-queue_all qs vectored =
      let w : Writer = record { write_buf = []; out_bodies = []; vectored = vectored } in
      let t : IsTidy w = record { ordered = omega arith; held = λ e. refl } in
      let (t', e) = queue_all-IsQueued qs w t in flush-wire (queue_all c d qs w) t' ∙ e
