-- ===== src/Core/Session/Outflow.antt =====
-- What the effects of state.rs put on the wire: transfer frames, deliveries and bytes.
use r_amqp.Core.Session.Splitting.{concat}
use r_amqp.Core.Window.{record_outgoing, SessionWindows}
use r_amqp.Core.Performatives.{Bytes, transfer}
use r_amqp.Core.Session.Sending.{
  all_frames, later_frames, record_frames, first_transfer, next_transfer,
}
use r_amqp.Common.{
  none, List, ℕ, ◌++◌, total, ◌∷◌, ◌≡◌, arith, is_empty, length, some, ◌-◌, [], ap, append_assoc,
  false, if◌then◌else◌, is_some, refl,
}
use r_amqp.Core.Session.State.{Effect, PendingSend, frame, answer, event, session_ended}

abbrev pub transfer_weight : Effect → ℕ
transfer_weight (frame channel (transfer t) payload) = 1
transfer_weight _ = 0

-- A transfer that names its delivery is the first of it.
abbrev pub delivery_weight : Effect → ℕ
delivery_weight (frame channel (transfer t) payload) = if is_some t.delivery_id then 1 else 0
delivery_weight _ = 0

-- The payloads of the frames, put together.
abbrev pub carried : List Effect → Bytes
carried [] = []
carried (frame channel f (some payload) ∷ es) = payload ++ carried es
carried (_ ∷ es) = carried es

pub carried-append : (xs ys : List Effect) → carried (xs ++ ys) ≡ carried xs ++ carried ys
carried-append [] ys = refl
carried-append (frame channel f (some payload) ∷ es) ys =
    rw (carried-append es ys, append_assoc) refl
carried-append (frame channel f none ∷ es) ys = carried-append es ys
carried-append (answer reply a ∷ es) ys = carried-append es ys
carried-append (event e ∷ es) ys = carried-append es ys
carried-append (session_ended e ∷ es) ys = carried-append es ys

-- What the frames of one message amount to.
pub record Carries (es : List Effect) (ps : List Bytes) (deliveries : ℕ) : Type 0 where
  pub frames : total transfer_weight es ≡ length ps
  pub firsts : total delivery_weight es ≡ deliveries
  pub bytes : carried es ≡ concat ps

later_frames-Carries :
    (channel handle : ℕ) (ps : List Bytes) → Carries (later_frames channel handle ps) ps 0
unfolding later_frames next_transfer
later_frames-Carries channel handle [] = record { frames = refl; firsts = refl; bytes = refl }
later_frames-Carries channel handle (c ∷ cs) =
    let rest = later_frames-Carries channel handle cs in
    record {
      frames = omega (arith, rest.frames);
      firsts = omega (arith, rest.firsts);
      bytes = ap (λ x. c ++ x) rest.bytes;
    }

pub all_frames-Carries :
    (channel handle delivery_id : ℕ) (tag : Bytes) (p : PendingSend) (ps : List Bytes)
    → is_empty ps ≡ false
    → Carries (all_frames channel handle delivery_id tag p ps) ps 1
unfolding all_frames first_transfer
all_frames-Carries channel handle delivery_id tag p [] n = cc
all_frames-Carries channel handle delivery_id tag p (c ∷ cs) n =
    let rest = later_frames-Carries channel handle cs in
    record {
      frames = omega (arith, rest.frames);
      firsts = omega (arith, rest.firsts);
      bytes = ap (λ x. c ++ x) rest.bytes;
    }

pub record_frames-window :
    (ps : List Bytes) (w : SessionWindows)
    → (record_frames ps w).remote_incoming_window ≡ w.remote_incoming_window - length ps
unfolding record_frames record_outgoing
record_frames-window [] w = omega arith
record_frames-window (c ∷ cs) w = omega (arith, record_frames-window cs (record_outgoing w))
