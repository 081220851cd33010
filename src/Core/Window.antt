-- ===== src/Core/Window.antt =====
-- ramqp-core/src/session/window.rs: a session's transfer ids and windows, in 32-bit arithmetic.
pub mod Budget
use r_amqp.Common.{
  ℕ, zero, suc, ◌-◌, Bool, true, false, Option, none, some, ltb, ◌==◌, if◌then◌else◌, max,
  wrapping_add32, wrapping_sub32, saturating_sub,
}
use r_amqp.Core.Performatives.{Begin, Flow}

pub record SessionConfig : Type 0 where
  pub incoming_window : ℕ
  pub outgoing_window : ℕ
  pub handle_max : ℕ

pub record SessionWindows : Type 0 where
  pub next_outgoing_id : ℕ
  pub outgoing_window : ℕ
  pub remote_incoming_window : ℕ
  pub incoming_window : ℕ
  pub initial_incoming_window : ℕ
  pub next_incoming_id : ℕ
  pub remote_outgoing_window : ℕ
  pub initialized : Bool

unfoldable pub new_windows : SessionConfig → SessionWindows
new_windows config = record {
  next_outgoing_id = 0;
  outgoing_window = config.outgoing_window;
  remote_incoming_window = 0;
  incoming_window = config.incoming_window;
  initial_incoming_window = config.incoming_window;
  next_incoming_id = 0;
  remote_outgoing_window = 0;
  initialized = false;
}

-- `SessionWindows::on_peer_begin`.
unfoldable pub windows_on_begin : SessionWindows → Begin → SessionWindows
windows_on_begin w begin = record w {
  next_incoming_id = begin.next_outgoing_id;
  remote_incoming_window = begin.incoming_window;
  remote_outgoing_window = begin.outgoing_window;
  initialized = true;
}

unfoldable pub can_send : SessionWindows → Bool
can_send w = ltb 0 w.remote_incoming_window

unfoldable pub record_outgoing : SessionWindows → SessionWindows
record_outgoing w = record w {
  next_outgoing_id = wrapping_add32 w.next_outgoing_id 1;
  remote_incoming_window = saturating_sub w.remote_incoming_window 1;
}

-- The new windows, and whether the incoming window is used up.
unfoldable pub record_incoming : SessionWindows → SessionWindows × Bool
record_incoming w =
    let left = saturating_sub w.incoming_window 1 in
    (
      record w { next_incoming_id = wrapping_add32 w.next_incoming_id 1; incoming_window = left },
      left == 0,
    )

unfoldable pub replenish_incoming : SessionWindows → SessionWindows
replenish_incoming w = record w { incoming_window = max w.initial_incoming_window 1 }

-- What a peer's flow leaves for us to send.
unfoldable pub remote_window_after : SessionWindows → Option ℕ → (incoming_window : ℕ) → ℕ
remote_window_after w none window = wrapping_sub32 window w.next_outgoing_id
remote_window_after w (some ni) window =
    wrapping_sub32 (wrapping_add32 ni window) w.next_outgoing_id

-- `SessionWindows::on_peer_flow`.
unfoldable pub windows_on_flow : SessionWindows → Flow → SessionWindows
unfolding remote_window_after
windows_on_flow w flow = record w {
  remote_incoming_window = remote_window_after w flow.next_incoming_id flow.incoming_window;
  next_incoming_id = max w.next_incoming_id flow.next_outgoing_id;
  remote_outgoing_window = flow.outgoing_window;
}

unfoldable pub build_flow : SessionWindows → Flow
build_flow w = record {
  next_incoming_id = if w.initialized then some w.next_incoming_id else none;
  incoming_window = w.incoming_window;
  next_outgoing_id = w.next_outgoing_id;
  outgoing_window = w.outgoing_window;
  handle = none;
  delivery_count = none;
  link_credit = none;
  available = none;
  drain = false;
  echo = false;
}
