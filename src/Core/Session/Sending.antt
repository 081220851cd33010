-- ===== src/Core/Session/Sending.antt =====
-- ramqp-core/src/session/state.rs: sending messages on a link, split into transfer frames.
use r_amqp.Common.{
  ℕ, zero, suc, ◌+◌, ◌-◌, ◌/◌, ◌%◌, Bool, false, not, ◌&&◌, Option, none, some, List, [], ◌∷◌, ◌++◌,
  ltb, leb, if◌then◌else◌, length, take, drop, is_empty, max, saturating_sub, wrapping_add32,
  insert, get,
}
use r_amqp.Core.Performatives.{Bytes, accepted, Flow, flow, Transfer, transfer}
use r_amqp.Core.Window.{SessionWindows, record_outgoing, build_flow}
use r_amqp.Core.Credit.{LinkCredit, has_credit, record_sent}
use r_amqp.Core.Unsettled.{track}
use r_amqp.Core.Session.State.{
  PendingSend, SenderLink, next_delivery_tag, max_unsettled_per_link, Link, sending, receiving,
  Session, Effect, frame, answer, settled_as, failed, ErrorKind,
}

-- `link_flow`.
unfoldable pub link_flow : ℕ → LinkCredit → SessionWindows → Flow
unfolding build_flow
link_flow handle credit windows = record (build_flow windows) {
  handle = some handle;
  delivery_count = some credit.delivery_count;
  link_credit = some credit.link_credit;
  available = some credit.available;
  drain = credit.drain;
}

abbrev pub transfer_perf_bound : ℕ
transfer_perf_bound = 72

unfoldable pub max_payload_per_frame : ℕ → ℕ
max_payload_per_frame max_frame_size =
    max (saturating_sub max_frame_size (8 + transfer_perf_bound)) 1

-- The first frame of a delivery names it; the later ones do not.
unfoldable pub first_transfer : ℕ → ℕ → Bytes → PendingSend → (more : Bool) → Transfer
first_transfer handle delivery_id tag p more = record {
  handle = handle;
  delivery_id = some delivery_id;
  delivery_tag = some tag;
  message_format = some p.message_format;
  settled = some p.settled;
  more = more;
  state = p.state;
  aborted = false;
}

unfoldable pub next_transfer : ℕ → (more : Bool) → Transfer
next_transfer handle more = record {
  handle = handle;
  delivery_id = none;
  delivery_tag = none;
  message_format = none;
  settled = none;
  more = more;
  state = none;
  aborted = false;
}

-- The payloads of the frames, from `rest` on, the bytes that the offset has not passed. With a
-- payload of one byte or more, as many rounds as there are bytes are enough.
unfoldable pub chunks : (fuel max_payload : ℕ) → Bytes → List Bytes
chunks zero max_payload rest = []
chunks (suc fuel) max_payload rest =
    let later = chunks fuel max_payload (drop max_payload rest) in
    if is_empty rest then [] else take max_payload rest ∷ later

-- The frames after the first.
unfoldable pub later_frames : (channel handle : ℕ) → List Bytes → List Effect
later_frames channel handle [] = []
later_frames channel handle (c ∷ cs) =
    frame channel (transfer (next_transfer handle (not (is_empty cs)))) (some c)
    ∷ later_frames channel handle cs

unfoldable pub all_frames :
    (channel handle delivery_id : ℕ) → Bytes → PendingSend → List Bytes → List Effect
unfolding first_transfer next_transfer later_frames
all_frames channel handle delivery_id tag p [] = []
all_frames channel handle delivery_id tag p (c ∷ cs) =
    frame channel (transfer (first_transfer handle delivery_id tag p (not (is_empty cs)))) (some c)
    ∷ later_frames channel handle cs

-- `record_outgoing` once for each frame.
unfoldable pub record_frames : List Bytes → SessionWindows → SessionWindows
record_frames [] w = w
record_frames (c ∷ cs) w = record_frames cs (record_outgoing w)

-- The payloads of one message: one frame where the body fits, else the chunks of the loop.
unfoldable pub payloads : ℕ → Bytes → List Bytes
unfolding chunks
payloads max_payload body =
    let split = chunks (length body) max_payload body in
    if leb (length body) max_payload then body ∷ [] else split

unfoldable pub send_message_frames :
    (channel handle delivery_id : ℕ)
    → Bytes
    → PendingSend
    → (max_payload : ℕ) → SessionWindows
    → List Effect × SessionWindows
unfolding payloads all_frames record_frames
send_message_frames channel handle delivery_id tag p max_payload w =
    let ps = payloads max_payload p.body in
    (all_frames channel handle delivery_id tag p ps, record_frames ps w)

-- `body_len.div_ceil(max_payload).max(1) as u32`.
unfoldable pub frame_count : ℕ → ℕ → ℕ
frame_count max_payload body_len =
    max ((body_len + max_payload - 1) / max_payload) 1 % 0x1_0000_0000

unfoldable pub answer_sent : Option ℕ → List Effect
answer_sent none = []
answer_sent (some reply) = answer reply (settled_as accepted) ∷ []

unfoldable pub await_outcome : Option ℕ → ℕ → List (ℕ × ℕ) → List (ℕ × ℕ)
await_outcome none delivery_id pending = pending
await_outcome (some reply) delivery_id pending = insert delivery_id reply pending

pub record Sent : Type 0 where
  pub link : SenderLink
  pub windows : SessionWindows
  pub effects : List Effect

-- The body of the loop once its guards have passed: one message is sent.
unfoldable pub send_one :
    (channel max_payload : ℕ) → SenderLink → SessionWindows → PendingSend → Sent
unfolding answer_sent await_outcome
send_one channel max_payload s w p =
    let (tag, s1) = next_delivery_tag s in
    let (frames, w') =
      send_message_frames channel s.handle w.next_outgoing_id tag p max_payload w in
    let s2 = record s1 { credit = record_sent s1.credit } in
    record {
      link = if p.settled then s2 else record s2 {
        unsettled = track w.next_outgoing_id tag none s2.unsettled;
        pending = await_outcome p.reply w.next_outgoing_id s2.pending;
      };
      windows = w';
      effects = frames ++ (if p.settled then answer_sent p.reply else []);
    }

-- Whether the front message may be sent: the link's credit, the bound on unsettled deliveries, and
-- room in the session's window for all its frames.
unfoldable pub may_send : (max_payload : ℕ) → SenderLink → SessionWindows → PendingSend → Bool
may_send max_payload s w p =
    s.attached
    && has_credit s.credit
    && not (not p.settled && leb max_unsettled_per_link (length s.unsettled))
    && leb (frame_count max_payload (length p.body)) w.remote_incoming_window

-- The loop of `flush_sender`, on the messages of the outbox.
unfoldable pub flush_outbox :
    (channel max_payload : ℕ) → SenderLink → SessionWindows → List PendingSend → Sent
flush_outbox channel max_payload s w [] = record {
  link = record s { outbox = [] };
  windows = w;
  effects = [];
}
flush_outbox channel max_payload s w (p ∷ ps) =
    let one = send_one channel max_payload s w p in
    let rest = flush_outbox channel max_payload one.link one.windows ps in
    if may_send max_payload s w p
    then record rest { effects = one.effects ++ rest.effects }
    else record { link = record s { outbox = p ∷ ps }; windows = w; effects = [] }

-- Drain completion: with nothing more to send, the rest of the credit is used up and reported.
unfoldable pub complete_drain : (channel : ℕ) → Sent → Sent
complete_drain channel r =
    let c = r.link.credit in
    let c' = record c {
      delivery_count = wrapping_add32 c.delivery_count c.link_credit;
      link_credit = 0;
    } in
    if c.drain && is_empty r.link.outbox && ltb 0 c.link_credit
    then record r {
      link = record (r.link) { credit = record c' { drain = false } };
      effects =
          r.effects ++ (frame channel (flow (link_flow r.link.handle c' r.windows)) none ∷ []);
    }
    else r

unfoldable pub flush_link : (channel max_frame_size : ℕ) → SenderLink → SessionWindows → Sent
unfolding complete_drain max_payload_per_frame
flush_link channel max_frame_size s w =
    complete_drain channel
      (flush_outbox channel (max_payload_per_frame max_frame_size) s w s.outbox)

unfoldable pub flush_found : ℕ → ℕ → Session → Option Link → Session × List Effect
flush_found handle max_frame_size s (some (sending l)) =
    let r = flush_link s.local_channel max_frame_size l s.windows in
    (record s { links = insert handle (sending r.link) s.links; windows = r.windows }, r.effects)
flush_found handle max_frame_size s (some (receiving l)) = (s, [])
flush_found handle max_frame_size s none = (s, [])

unfoldable pub flush_sender : ℕ → ℕ → Session → Session × List Effect
unfolding flush_found
flush_sender handle max_frame_size s = flush_found handle max_frame_size s (get handle s.links)

refuse_send : Option ℕ → List Effect
refuse_send none = []
refuse_send (some reply) = answer reply (failed ErrorKind.detached) ∷ []

unfoldable pub send_to_link : ℕ → PendingSend → ℕ → Session → Option Link → Session × List Effect
unfolding refuse_send
send_to_link handle p max_frame_size s (some (sending l)) =
    flush_sender handle max_frame_size (record s {
      links = insert handle (sending (record l { outbox = l.outbox ++ (p ∷ []) })) s.links;
    })
send_to_link handle p max_frame_size s (some (receiving l)) = (s, refuse_send p.reply)
send_to_link handle p max_frame_size s none = (s, refuse_send p.reply)

-- Queue an outbound message on a sender link and flush what may go.
unfoldable pub send_transfer : ℕ → PendingSend → ℕ → Session → Session × List Effect
unfolding send_to_link
send_transfer handle p max_frame_size s =
    send_to_link handle p max_frame_size s (get handle s.links)
