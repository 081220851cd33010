-- ===== src/Core/Window/Budget.antt =====
-- How much a session may send after a peer's flow, by window.rs.
use r_amqp.Common.{
  ℕ, zero, suc, ◌-◌, ◌≤◌, ◌<◌, ◌≡◌, arith, true, some, ltb, u32_max, wrapping_add32, wrapping_sub32,
}
use r_amqp.Core.Performatives.{Flow}
use r_amqp.Core.Window.{SessionWindows, can_send, record_outgoing, windows_on_flow}

-- The windows after `n` transfers were sent.
unfoldable pub send_many : ℕ → SessionWindows → SessionWindows
send_many zero w = w
send_many (suc n) w = send_many n (record_outgoing w)

send_many-window :
    (n : ℕ) (w : SessionWindows)
    → (send_many n w).remote_incoming_window ≡ w.remote_incoming_window - n
unfolding send_many record_outgoing
send_many-window zero w = omega arith
send_many-window (suc n) w = omega (arith, send_many-window n (record_outgoing w))

send_many-id :
    (n : ℕ) (w : SessionWindows)
    → w.next_outgoing_id ≤ u32_max
    → (send_many n w).next_outgoing_id ≡ wrapping_add32 w.next_outgoing_id n
unfolding send_many record_outgoing
send_many-id zero w h = omega arith
send_many-id (suc n) w h = omega (arith, send_many-id n (record_outgoing w) (omega arith))

window_left :
    (ni k window next : ℕ)
    → next ≡ wrapping_add32 ni k
    → ni ≤ u32_max
    → k ≤ window
    → window ≤ u32_max
    → wrapping_sub32 (wrapping_add32 ni window) next ≡ window - k
window_left ni k window next seen hn hk hw = omega arith

ltb_left : (x n : ℕ) → ltb 0 (x - n) ≡ ltb n x
ltb_left x n = ground arith

-- After a flow of a peer that has seen all but the last k of our transfers and opens a window of k
-- or more, exactly the rest of that window can be sent: after n more transfers sending is allowed
-- just when n is below the window less k, also where the ids wrap.
pub windows_on_flow-can_send :
    (w : SessionWindows) (f : Flow) (ni k n : ℕ)
    → f.next_incoming_id ≡ some ni
    → w.next_outgoing_id ≡ wrapping_add32 ni k
    → ni ≤ u32_max
    → k ≤ f.incoming_window
    → f.incoming_window ≤ u32_max
    → can_send (send_many n (windows_on_flow w f)) ≡ ltb n (f.incoming_window - k)
unfolding can_send windows_on_flow
windows_on_flow-can_send w f ni k n e seen hn hk hw =
    rw (send_many-window, e, window_left ni k f.incoming_window w.next_outgoing_id seen hn hk hw)
      (ltb_left (f.incoming_window - k) n)

-- A window that the peer shrank below what is in flight wraps: where the flow has seen all but the
-- last k transfers and its window is less than k, the session may go on sending, and counts 2^32 -
-- (k - window) transfers that it may still send.
pub windows_on_flow-shrunk :
    (w : SessionWindows) (f : Flow) (ni k : ℕ)
    → f.next_incoming_id ≡ some ni
    → w.next_outgoing_id ≡ wrapping_add32 ni k
    → ni ≤ u32_max
    → f.incoming_window < k
    → k ≤ u32_max
    → ((windows_on_flow w f).remote_incoming_window ≡ 0x1_0000_0000 - (k - f.incoming_window))
      × (can_send (windows_on_flow w f) ≡ true)
unfolding can_send windows_on_flow
windows_on_flow-shrunk w f ni k e seen hn hk hw = rw e (omega arith, ground arith)
