-- ===== src/Core/Session/Flushing.antt =====
-- ramqp-core/src/session/state.rs: what flush_sender makes of the outbox of a link.
use r_amqp.Common.{
  ℕ, ◌+◌, ◌≤◌, ◌≡◌, refl, arith, ◌∙◌, inl, inr, Bool-cases, Bool, true, false, none, List, [], ◌∷◌,
  ◌++◌, total, total-append, append_assoc, append-nil, All, length, max, ◌&&◌, ltb, is_empty,
}
use r_amqp.Core.Performatives.{Performative}
use r_amqp.Core.Window.{SessionWindows}
use r_amqp.Core.Session.State.{Effect, frame, SenderLink, PendingSend, max_unsettled_per_link}
use r_amqp.Core.Session.Sending.{
  Sent, may_send, send_one, flush_outbox, flush_link, complete_drain, max_payload_per_frame,
}
use r_amqp.Core.Session.Outflow.{transfer_weight, delivery_weight, carried, carried-append}
use r_amqp.Core.Session.Gating.{bodies, Countable, send_one-SentOne}

-- The front message, if there is one, may not be sent.
abbrev pub StuckAt : (max_payload : ℕ) → SenderLink → SessionWindows → List PendingSend → Type 0
StuckAt m s w [] = Unit
StuckAt m s w (p ∷ ps) = may_send m s w p ≡ false

-- A flush of the messages `ps` on the link `s`: transfer frames are within the session's window,
-- deliveries within the link's credit, what is on the wire and what stays queued is what was queued,
-- in order, the unsettled deliveries are bounded, and what stays may not be sent.
pub record IsFlushed (m : ℕ) (s : SenderLink) (w : SessionWindows) (ps : List PendingSend)
    (r : Sent) : Type 0 where
  pub window :
      total transfer_weight r.effects + r.windows.remote_incoming_window ≡ w.remote_incoming_window
  pub credit : total delivery_weight r.effects + r.link.credit.link_credit ≤ s.credit.link_credit
  pub order : carried r.effects ++ bodies r.link.outbox ≡ bodies ps
  pub unsettled : length r.link.unsettled ≤ max (length s.unsettled) max_unsettled_per_link
  pub stuck : StuckAt m r.link r.windows r.link.outbox

flush_outbox-IsFlushed :
    (channel m : ℕ) (s : SenderLink) (w : SessionWindows) (ps : List PendingSend)
    → 1 ≤ m
    → All (Countable m) ps
    → IsFlushed m s w ps (flush_outbox channel m s w ps)
unfolding flush_outbox
flush_outbox-IsFlushed channel m s w [] hm hc = record {
  window = omega arith;
  credit = omega arith;
  order = refl;
  unsettled = omega arith;
  stuck = tt;
}
flush_outbox-IsFlushed channel m s w (p ∷ ps) hm hc = elim (Bool-cases (may_send m s w p)) [
  | inl go ↦
      let one = send_one-SentOne channel m s w p hm hc.0 go in
      let rest =
        flush_outbox-IsFlushed channel m (send_one channel m s w p).link
          (send_one channel m s w p).windows ps hm hc.1 in
      rw go (record {
        window = rw total-append (omega (arith, one.window, rest.window));
        credit = rw total-append (omega (arith, one.credit, rest.credit));
        order = rw (carried-append, append_assoc, one.order, rest.order) refl;
        unsettled = omega (arith, one.unsettled, rest.unsettled);
        stuck = rest.stuck;
      })
  | inr wait ↦ rw wait (record {
    window = omega arith;
    credit = omega arith;
    order = refl;
    unsettled = omega arith;
    stuck = unfold may_send in wait;
  })
]

carried-snoc :
    (es : List Effect) (channel : ℕ) (f : Performative)
    → carried (es ++ (frame channel f none ∷ [])) ≡ carried es
carried-snoc es channel f = carried-append es (frame channel f none ∷ []) ∙ append-nil (carried es)

StuckAt-empty :
    (m : ℕ) (s : SenderLink) (w : SessionWindows) (ps : List PendingSend)
    → is_empty ps ≡ true
    → StuckAt m s w ps
StuckAt-empty m s w [] h = tt
StuckAt-empty m s w (p ∷ ps) h = cc

nothing_left : (a b c : Bool) → (a && b && c) ≡ true → b ≡ true
nothing_left a b c h = ground arith

complete_drain-IsFlushed :
    (channel m : ℕ) (s : SenderLink) (w : SessionWindows) (ps : List PendingSend) (r : Sent)
    → IsFlushed m s w ps r
    → IsFlushed m s w ps (complete_drain channel r)
unfolding complete_drain
complete_drain-IsFlushed channel m s w ps r h =
    elim (Bool-cases
      (r.link.credit.drain && is_empty r.link.outbox && ltb 0 r.link.credit.link_credit)) [
        | inl drains ↦ rw drains (record {
          window = rw total-append (omega (arith, h.window));
          credit = rw total-append (omega (arith, h.credit));
          order = rw carried-snoc h.order;
          unsettled = h.unsettled;
          stuck =
              StuckAt-empty m _ r.windows r.link.outbox
                (nothing_left r.link.credit.drain _ _ drains);
        })
        | inr keeps ↦ rw keeps h
      ]

max_payload-positive : (max_frame_size : ℕ) → 1 ≤ max_payload_per_frame max_frame_size
unfolding max_payload_per_frame
max_payload-positive max_frame_size = omega arith

-- A drain that can be completed: it is asked for, nothing is queued, and credit is left.
abbrev pub drain_pending : SenderLink → Bool
drain_pending l = l.credit.drain && is_empty l.outbox && ltb 0 l.credit.link_credit

complete_drain-drained :
    (channel : ℕ) (r : Sent) → drain_pending (complete_drain channel r).link ≡ false
unfolding complete_drain
complete_drain-drained channel r = ground arith

-- Flushing a link, where the frames of each queued message can be counted in 32 bits, keeps its
-- frames within the session's window and its deliveries within the link's credit. The payloads sent,
-- with the bodies that stay queued, are the bodies that were queued, in order. At most 65536
-- deliveries, or what there was, stay unsettled. The first message that stays queued may not be sent,
-- and no drain with credit left and nothing queued is left open.
pub flush_link-IsFlushed :
    (channel max_frame_size : ℕ) (s : SenderLink) (w : SessionWindows)
    → All (Countable (max_payload_per_frame max_frame_size)) s.outbox
    → IsFlushed
        (max_payload_per_frame max_frame_size)
        s
        w
        s.outbox
        (flush_link channel max_frame_size s w)
      × (drain_pending (flush_link channel max_frame_size s w).link ≡ false)
unfolding flush_link
flush_link-IsFlushed channel max_frame_size s w hc =
    let m = max_payload_per_frame max_frame_size in
    let sent = flush_outbox channel m s w s.outbox in
    (
      complete_drain-IsFlushed channel m s w s.outbox sent
          (flush_outbox-IsFlushed channel m s w s.outbox (max_payload-positive max_frame_size) hc),
      complete_drain-drained channel sent,
    )
