-- ===== src/Core/Session/Gating.antt =====
-- What flushing a sender link may do, by state.rs: within the window, within the credit, in order,
-- and as far as it goes.
use r_amqp.Core.Session.Splitting.{payloads-some, payloads-frame_count, payloads-concat, concat}
use r_amqp.Core.Session.Outflow.{
  Carries, all_frames-Carries, transfer_weight, delivery_weight, carried, carried-append,
  record_frames-window,
}
use r_amqp.Core.Performatives.{Bytes}
use r_amqp.Core.Credit.{has_credit, record_sent}
use r_amqp.Core.Window.{SessionWindows}
use r_amqp.Core.Session.Sending.{
  answer_sent, may_send, send_one, send_message_frames, Sent, payloads, frame_count,
}
use r_amqp.Core.Unsettled.{insert_entry, UnsettledEntry, UnsettledMap, track}
use r_amqp.Core.Session.State.{SenderLink, PendingSend, next_delivery_tag, max_unsettled_per_link}
use r_amqp.Common.{
  none, if_elim, refl, Bool-cases, inl, inr, List, ℕ, Bool, Option, length, ◌≡◌, if◌then◌else◌,
  total, true, ◌∷◌, ◌≤◌, [], suc, u32_max, ◌++◌, arith, some, ◌+◌, ◌<◌, false, total-append,
  append-nil, max, ◌∙◌, ◌-◌,
}

abbrev pub bodies : List PendingSend → Bytes
bodies [] = []
bodies (p ∷ ps) = p.body ++ bodies ps

-- What sending one message does to the windows, the credit and the unsettled deliveries.
pub record SentOne (s : SenderLink) (w : SessionWindows) (p : PendingSend) (r : Sent) : Type 0 where
  pub window :
      total transfer_weight r.effects + r.windows.remote_incoming_window ≡ w.remote_incoming_window
  pub credit : total delivery_weight r.effects + r.link.credit.link_credit ≡ s.credit.link_credit
  pub order : carried r.effects ≡ p.body
  pub unsettled : length r.link.unsettled ≤ max (length s.unsettled) max_unsettled_per_link

-- A body whose frames can be counted in 32 bits.
abbrev pub Countable : ℕ → PendingSend → Type 0
Countable max_payload p = length (payloads max_payload p.body) ≤ u32_max

insert_entry-length :
    (k : ℕ) (e : UnsettledEntry) (m : UnsettledMap) → length (insert_entry k e m) ≤ suc (length m)
unfolding insert_entry
insert_entry-length k e [] = omega arith
insert_entry-length k e ((j, f) ∷ m) = ground (arith, insert_entry-length k e m)

answers-Carries :
    (settled : Bool) (reply : Option ℕ) → Carries (if settled then answer_sent reply else []) [] 0
unfolding answer_sent
answers-Carries false reply = record { frames = refl; firsts = refl; bytes = refl }
answers-Carries true none = record { frames = refl; firsts = refl; bytes = refl }
answers-Carries true (some reply) = record { frames = refl; firsts = refl; bytes = refl }

-- The effects of one message: its frames and the answer that a settled one gets.
send_one-Carries :
    (channel m : ℕ) (s : SenderLink) (w : SessionWindows) (p : PendingSend)
    → Carries (send_one channel m s w p).effects (payloads m p.body) 1
unfolding send_one send_message_frames
send_one-Carries channel m s w p =
    let sent =
      all_frames-Carries channel s.handle w.next_outgoing_id (next_delivery_tag s).0 p
        (payloads m p.body) (payloads-some m p.body) in
    let answers = answers-Carries p.settled p.reply in
    record {
      frames = rw total-append (omega (arith, sent.frames, answers.frames));
      firsts = rw total-append (omega (arith, sent.firsts, answers.firsts));
      bytes =
          rw (carried-append, sent.bytes, answers.bytes) (append-nil (concat (payloads m p.body)));
    }

may_send-facts :
    (m : ℕ) (s : SenderLink) (w : SessionWindows) (p : PendingSend)
    → may_send m s w p ≡ true
    → (1 ≤ s.credit.link_credit)
      × (p.settled ≡ false → length s.unsettled < max_unsettled_per_link)
      × (frame_count m (length p.body) ≤ w.remote_incoming_window)
unfolding may_send has_credit
may_send-facts m s w p h = (ground arith, λ e. ground arith, ground arith)

send_one-credit :
    (channel m : ℕ) (s : SenderLink) (w : SessionWindows) (p : PendingSend)
    → (send_one channel m s w p).link.credit ≡ record_sent s.credit
unfolding send_one next_delivery_tag
send_one-credit channel m s w p =
    if_elim (λ c. c ≡ record_sent s.credit) (λ (l : SenderLink). l.credit) _ _ _ refl refl

send_one-unsettled :
    (channel m : ℕ) (s : SenderLink) (w : SessionWindows) (p : PendingSend)
    → may_send m s w p ≡ true
    → length (send_one channel m s w p).link.unsettled
      ≤ max (length s.unsettled) max_unsettled_per_link
unfolding send_one next_delivery_tag track
send_one-unsettled channel m s w p h = elim (Bool-cases p.settled) [
  | inl settled ↦ simp settled (omega arith)
  | inr waiting ↦
      let room = (may_send-facts m s w p h).1 waiting in
      simp waiting (omega (arith, room, insert_entry-length w.next_outgoing_id _ s.unsettled))
]

send_one-window :
    (channel m : ℕ) (s : SenderLink) (w : SessionWindows) (p : PendingSend)
    → (send_one channel m s w p).windows.remote_incoming_window
      ≡ w.remote_incoming_window - length (payloads m p.body)
unfolding send_one send_message_frames
send_one-window channel m s w p = record_frames-window (payloads m p.body) w

send_one-left :
    (channel m : ℕ) (s : SenderLink) (w : SessionWindows) (p : PendingSend)
    → (send_one channel m s w p).link.credit.link_credit ≡ s.credit.link_credit - 1
unfolding record_sent
send_one-left channel m s w p = rw (send_one-credit channel m s w p) (omega arith)

pub send_one-SentOne :
    (channel m : ℕ) (s : SenderLink) (w : SessionWindows) (p : PendingSend)
    → 1 ≤ m
    → Countable m p
    → may_send m s w p ≡ true
    → SentOne s w p (send_one channel m s w p)
send_one-SentOne channel m s w p hm hc h =
    let c = send_one-Carries channel m s w p in
    let f = may_send-facts m s w p h in
    record {
      window = omega (
        arith,
        c.frames,
        f.2,
        payloads-frame_count m p.body hm hc,
        send_one-window channel m s w p,
      );
      credit = omega (arith, c.firsts, f.0, send_one-left channel m s w p);
      order = c.bytes ∙ payloads-concat m p.body hm;
      unsettled = send_one-unsettled channel m s w p h;
    }
