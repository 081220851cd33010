-- ===== src/Core/Transport/Delivery.antt =====
-- ramqp-core/src/transport/frame.rs: frames that one side queues are the frames that the other reads,
-- however the stream splits the bytes.
use r_amqp.Common.{
  ◌-◌, ℕ, ◌+◌, ◌≤◌, ◌<◌, ◌≡◌, refl, arith, sym, ◌∙◌, ap, inl, inr, Bool, false, Bool-cases, leb,
  Option, none, some, List, [], ◌∷◌, ◌++◌, map, All, length, take, drop, take-append, drop-append,
  is_empty, append-nil, append_assoc, length-append, subst, take-append-drop,
}
use r_amqp.Core.Performatives.{Bytes}
use r_amqp.Core.Transport.Frame.{BodyCodec, Frame, decoded, needs_more, decode_frame}
use r_amqp.Core.Transport.Writing.{Queued, flush, queue_all}
use r_amqp.Core.Transport.Wire.{bytes_of, bytes_of_all, flush-queue_all}
use r_amqp.Core.Transport.Reading.{
  ReadOutcome, got, read_failed, waiting, read_frame, frame_and, and_frames, read_frames,
}
use r_amqp.Core.Transport.Splitting.{frame_of, IsSendable, queued-decode, queued-partial}
use r_amqp.Core.Transport.Heads.{take-exact, drop-exact}

-- The bytes of some reads.
abbrev pub joined : List Bytes → Bytes
joined [] = []
joined (r ∷ reads) = r ++ joined reads

-- Every read gives bytes: the stream has not ended.
abbrev pub AllNonempty : List Bytes → Type 0
AllNonempty [] = Unit
AllNonempty (r ∷ reads) = (is_empty r ≡ false) × AllNonempty reads

module _ {P S : Type 0} (c : BodyCodec P) (d : BodyCodec S) (max : ℕ) where
  -- The frame was read, and what is left of the buffer and the reads is the rest of the stream.
  abbrev IsNext : Frame P S → (tail : Bytes) → ReadOutcome (Frame P S) → Type 0
  IsNext f tail (got g buf reads size) = (g ≡ f) × (buf ++ joined reads ≡ tail) × AllNonempty reads
  IsNext f tail (read_failed e) = ⊥
  IsNext f tail (waiting buf) = ⊥

  -- The frames were read, in order, with no byte lost.
  abbrev pub AreRead :
      List (Queued P S) → (tail : Bytes) → Option (List (Frame P S) × Bytes × List Bytes) → Type 0
  AreRead qs tail none = ⊥
  AreRead qs tail (some (fs, buf, reads)) =
      (fs ≡ map (frame_of c d) qs) × (buf ++ joined reads ≡ tail)

  -- A buffer with the whole frame.
  buffer-split :
      (q : Queued P S) (buf more tail : Bytes)
      → buf ++ more ≡ bytes_of c d q ++ tail
      → length (bytes_of c d q) ≤ length buf
      → (buf ≡ bytes_of c d q ++ drop (length (bytes_of c d q)) buf)
        × (drop (length (bytes_of c d q)) buf ++ more ≡ tail)
  buffer-split q buf more tail e h =
      let n : ℕ = length (bytes_of c d q) in
      let front : take n buf ≡ bytes_of c d q =
        sym (take-append n buf more h) ∙ ap (take n) e ∙ take-exact (bytes_of c d q) tail in
      (
        sym (take-append-drop n buf) ∙ ap (λ b. b ++ drop n buf) front,
        sym (drop-append n buf more h) ∙ ap (drop n) e ∙ drop-exact (bytes_of c d q) tail,
      )

  read_frame-decoded :
      (buf : Bytes) (reads : List Bytes) (f : Frame P S) (rest : Bytes)
      → decode_frame c d max buf ≡ decoded f rest
      → read_frame c d max buf reads ≡ got f rest reads (length buf - length rest)
  unfolding read_frame
  read_frame-decoded buf [] f rest e = rw (e, read_frame) refl
  read_frame-decoded buf (r ∷ reads) f rest e = rw (e, read_frame) refl

  read_frame-waits :
      (buf r : Bytes) (reads : List Bytes)
      → decode_frame c d max buf ≡ needs_more
      → is_empty r ≡ false
      → read_frame c d max buf (r ∷ reads) ≡ read_frame c d max (buf ++ r) reads
  unfolding read_frame
  read_frame-waits buf r reads e more = rw (e, more, read_frame) refl

  module _ (bound : max < 0x1_0000_0000) where
    buffer-decode :
        (q : Queued P S) (buf more tail : Bytes)
        → IsSendable c d max q
        → buf ++ more ≡ bytes_of c d q ++ tail
        → length (bytes_of c d q) ≤ length buf
        → decode_frame c d max buf ≡ decoded (frame_of c d q) (drop (length (bytes_of c d q)) buf)
    buffer-decode q buf more tail s e h =
        ap (decode_frame c d max) (buffer-split q buf more tail e h).0
        ∙ queued-decode c d max q (drop (length (bytes_of c d q)) buf) bound s

    whole-IsNext :
        (q : Queued P S) (buf : Bytes) (reads : List Bytes) (tail : Bytes)
        → IsSendable c d max q
        → AllNonempty reads
        → buf ++ joined reads ≡ bytes_of c d q ++ tail
        → length (bytes_of c d q) ≤ length buf
        → IsNext (frame_of c d q) tail (read_frame c d max buf reads)
    whole-IsNext q buf reads tail s a e h =
        subst (IsNext (frame_of c d q) tail)
          (sym (
            read_frame-decoded buf reads (frame_of c d q) (drop (length (bytes_of c d q)) buf)
              (buffer-decode q buf (joined reads) tail s e h)))
          (refl, (buffer-split q buf (joined reads) tail e h).1, a)

    read_frame-IsNext :
        (q : Queued P S) (buf : Bytes) (reads : List Bytes) (tail : Bytes)
        → IsSendable c d max q
        → AllNonempty reads
        → buf ++ joined reads ≡ bytes_of c d q ++ tail
        → IsNext (frame_of c d q) tail (read_frame c d max buf reads)
    read_frame-IsNext q buf [] tail s a e =
        let all : length buf + 0 ≡ length (bytes_of c d q) + length tail =
          sym (length-append buf []) ∙ ap length e ∙ length-append (bytes_of c d q) tail in
        whole-IsNext q buf [] tail s a e (omega arith)
    read_frame-IsNext q buf (r ∷ reads) tail s a e =
        elim (Bool-cases (leb (length (bytes_of c d q)) (length buf))) [
          | inl x ↦ whole-IsNext q buf (r ∷ reads) tail s a e (ground arith)
          | inr x ↦
              let short : length buf < length (bytes_of c d q) = ground arith in
              subst (IsNext (frame_of c d q) tail)
                (sym (
                  read_frame-waits buf r reads
                    (queued-partial c d max q buf (r ++ joined reads) tail bound s e short) a.0))
                (read_frame-IsNext q (buf ++ r) reads tail s a.1
                  (append_assoc buf r (joined reads) ∙ e))
        ]

    frames-AreRead :
        (q : Queued P S) (qs : List (Queued P S)) (tail : Bytes) (g : Frame P S)
        → g ≡ frame_of c d q
        → (o : Option (List (Frame P S) × Bytes × List Bytes)) → AreRead qs tail o
        → AreRead (q ∷ qs) tail (frame_and g o)
    unfolding frame_and
    frames-AreRead q qs tail g e none h = elim h [ ]
    frames-AreRead q qs tail g e (some (fs, buf, reads)) (e', left) =
        (ap (λ x. x ∷ fs) e ∙ ap (◌∷◌ (frame_of c d q)) e', left)

    next-AreRead :
        (q : Queued P S) (qs : List (Queued P S)) (tail : Bytes) (o : ReadOutcome (Frame P S))
        → IsNext (frame_of c d q) (bytes_of_all c d qs ++ tail) o
        → ((buf : Bytes) (reads : List Bytes)
            → AllNonempty reads
            → buf ++ joined reads ≡ bytes_of_all c d qs ++ tail
            → AreRead qs tail (read_frames c d max (length qs) buf reads))
        → AreRead (q ∷ qs) tail (and_frames (read_frames c d max (length qs)) o)
    unfolding and_frames
    next-AreRead q qs tail (got g buf reads size) (e, left, a) later =
        frames-AreRead q qs tail g e (read_frames c d max (length qs) buf reads)
          (later buf reads a left)
    next-AreRead q qs tail (read_failed x) h later = elim h [ ]
    next-AreRead q qs tail (waiting buf) h later = elim h [ ]

    -- The encodings of some frames with a rest, in reads that are not empty.
    read_frames-AreRead :
        (qs : List (Queued P S)) (buf : Bytes) (reads : List Bytes) (tail : Bytes)
        → All (IsSendable c d max) qs
        → AllNonempty reads
        → buf ++ joined reads ≡ bytes_of_all c d qs ++ tail
        → AreRead qs tail (read_frames c d max (length qs) buf reads)
    unfolding read_frames
    read_frames-AreRead [] buf reads tail s a e = (refl, e)
    read_frames-AreRead (q ∷ qs) buf reads tail s a e =
        next-AreRead q qs tail (read_frame c d max buf reads)
          (read_frame-IsNext q buf reads (bytes_of_all c d qs ++ tail) s.0 a
            (e ∙ append_assoc (bytes_of c d q) (bytes_of_all c d qs) tail))
          (λ b rs. read_frames-AreRead qs b rs tail s.1)

    -- Frames that are queued on an empty writer and flushed, gathered or not, are just those that the
    -- peer reads, in order, and nothing is left over, however the stream splits the flushed bytes in
    -- reads that are not empty. It is assumed of the codec of the bodies that it reads back the body of
    -- each of these frames: from the bytes it wrote followed by the frame's payload, one byte or more,
    -- it reads that body and leaves the payload (for SASL, it leaves nothing). The frames are on 16-bit
    -- channels and no larger than the reader's maximum, which has 32 bits; a payload of no bytes is read
    -- as none.
    pub flush-read_frames :
        (qs : List (Queued P S)) (vectored : Bool) (reads : List Bytes)
        → All (IsSendable c d max) qs
        → AllNonempty reads
        → joined reads
          ≡ (flush (
              queue_all c d qs (record { write_buf = []; out_bodies = []; vectored = vectored }))).0
        → AreRead qs [] (read_frames c d max (length qs) [] reads)
    flush-read_frames qs vectored reads s a e =
        read_frames-AreRead qs [] reads [] s a
          (e ∙ flush-queue_all c d qs vectored ∙ sym (append-nil (bytes_of_all c d qs)))
