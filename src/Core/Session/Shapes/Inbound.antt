-- ===== src/Core/Session/Shapes/Inbound.antt =====
-- ramqp-core/src/session/state.rs: inbound transfers, detaches and attaches keep a session well formed.
use r_amqp.Common.{
  ℕ, ◌≡◌, refl, arith, if_elim, Bool, true, false, Option, none, some, get, insert, ==_refl, ltb,
}
use r_amqp.Core.Performatives.{Bytes, AmqpError, Transfer}
use r_amqp.Core.Window.{record_incoming}
use r_amqp.Core.Session.State.{
  ReceiverLink, Link, sending, receiving, Session, Outcome, passed, failed_with, panicked,
  PartialDelivery, size_cap,
}
use r_amqp.Core.Session.Receiving.{
  Received, violation, oversized, taken, receive_transfer, accept_payload, take_single, assemble,
  deliver_up,
}
use r_amqp.Core.Session.Inbound.{
  detach_with_error, reopen_window, finish_transfer, transfer_on_link, transfer_resolved,
  on_transfer, size_exceeded,
}
use r_amqp.Core.Session.WellFormed.{IsWellFormed}
use r_amqp.Core.Session.Keeping.{
  SameShape, SameShape-trans, SameShape-IsWellFormed, forget_link-IsWellFormed,
}
use r_amqp.Core.Session.Shapes.{
  SameFace, SameShape-refl, SameShape-replace, SameShape-windows, KeepsShape,
}
use r_amqp.Core.Session.Shapes.Flows.{receiving-SameFace}

-- What is left after a call is well formed, on the error path too. A panic leaves nothing.
abbrev pub StaysWellFormed : Outcome → Type 0
StaysWellFormed (passed s effects) = IsWellFormed s
StaysWellFormed (failed_with k s) = IsWellFormed s
StaysWellFormed panicked = Unit

pub KeepsShape-StaysWellFormed :
    (s : Session) (o : Outcome) → IsWellFormed s → KeepsShape s o → StaysWellFormed o
KeepsShape-StaysWellFormed s (passed s' effects) v x = SameShape-IsWellFormed s s' x v
KeepsShape-StaysWellFormed s (failed_with k s') v x = SameShape-IsWellFormed s s' x v
KeepsShape-StaysWellFormed s panicked v x = tt

abbrev ReceivedFace : ReceiverLink → Received → Type 0
ReceivedFace r violation = Unit
ReceivedFace r (oversized r') = SameFace (receiving r) (receiving r')
ReceivedFace r (taken r' events) = SameFace (receiving r) (receiving r')

abbrev same : (r : ReceiverLink) → SameFace (receiving r) (receiving r)
same r = record { key = refl; own = refl; remote = refl }

assemble-ReceivedFace :
    (r : ReceiverLink) (p : PartialDelivery) (more : Bool) → ReceivedFace r (assemble r p more)
unfolding assemble deliver_up
assemble-ReceivedFace r p more =
    if_elim (ReceivedFace r) (λ x. x) (ltb (size_cap r) _) _ _
      (receiving-SameFace r _ refl refl refl)
      (if_elim (ReceivedFace r) (λ x. x) more _ _ (receiving-SameFace r _ refl refl refl)
        (receiving-SameFace r _ refl refl refl))

take_single-ReceivedFace :
    (r : ReceiverLink) (t : Transfer) (b : Bytes) → ReceivedFace r (take_single r t b)
unfolding take_single deliver_up
take_single-ReceivedFace r t b =
    if_elim (ReceivedFace r) (λ x. x) (ltb (size_cap r) _) _ _ (same r)
      (receiving-SameFace r _ refl refl refl)

accept_payload-ReceivedFace :
    (r : ReceiverLink) (t : Transfer) (b : Bytes) (o : Option PartialDelivery)
    → ReceivedFace r (accept_payload r t b o)
unfolding accept_payload
accept_payload-ReceivedFace r t b none =
    if_elim (ReceivedFace r) (λ x. x) t.more _ _ (assemble-ReceivedFace r _ true)
      (take_single-ReceivedFace r t b)
accept_payload-ReceivedFace r t b (some p) = assemble-ReceivedFace r _ t.more

receive_transfer-ReceivedFace :
    (r : ReceiverLink) (t : Transfer) (payload : Option Bytes)
    → ReceivedFace r (receive_transfer r t payload)
unfolding receive_transfer
receive_transfer-ReceivedFace r t payload =
    if_elim (ReceivedFace r) (λ x. x) t.aborted _ _ (receiving-SameFace r _ refl refl refl)
      (if_elim (ReceivedFace r) (λ x. x) _ violation _ tt
        (accept_payload-ReceivedFace r t _ r.assembling))

reopen_window-SameShape : (b : Bool) (s : Session) → SameShape s (reopen_window b s).0
unfolding reopen_window
reopen_window-SameShape false s = SameShape-refl s
reopen_window-SameShape true s = SameShape-windows s _

reopen_window-links : (b : Bool) (s : Session) → (reopen_window b s).0.links ≡ s.links
unfolding reopen_window
reopen_window-links false s = refl
reopen_window-links true s = refl

detach_with_error-IsWellFormed :
    (h : ℕ) (e : AmqpError) (s : Session) (l : Link)
    → IsWellFormed s
    → get h s.links ≡ some l
    → IsWellFormed (detach_with_error h e s).0
unfolding detach_with_error
detach_with_error-IsWellFormed h e s l v q = forget_link-IsWellFormed s v h l q

finish_transfer-StaysWellFormed :
    (h : ℕ) (need_flow : Bool) (s : Session) (r : ReceiverLink) (x : Received)
    → IsWellFormed s
    → get h s.links ≡ some (receiving r)
    → ReceivedFace r x
    → StaysWellFormed (finish_transfer h need_flow s x)
unfolding finish_transfer
finish_transfer-StaysWellFormed h need_flow s r violation v e f = v
finish_transfer-StaysWellFormed h need_flow s r (taken r' events) v e f =
    let s1 = record s { links = insert h (receiving r') s.links } in
    SameShape-IsWellFormed s _
      (SameShape-trans (SameShape-replace s s.windows h (receiving r) (receiving r') v e f)
        (reopen_window-SameShape need_flow s1))
      v
finish_transfer-StaysWellFormed h need_flow s r (oversized r') v e f =
    let s1 = record s { links = insert h (receiving r') s.links } in
    let v' =
      SameShape-IsWellFormed s _
        (SameShape-trans (SameShape-replace s s.windows h (receiving r) (receiving r') v e f)
          (reopen_window-SameShape need_flow s1))
        v in
    detach_with_error-IsWellFormed h size_exceeded (reopen_window need_flow s1).0 (receiving r') v'
      (rw (reopen_window-links need_flow s1) (ground (arith, ==_refl h)))

transfer_on_link-StaysWellFormed :
    (h : ℕ) (t : Transfer) (payload : Option Bytes) (need_flow : Bool) (s : Session)
    (o : Option Link)
    → IsWellFormed s
    → get h s.links ≡ o
    → StaysWellFormed (transfer_on_link h t payload need_flow s o)
unfolding transfer_on_link
transfer_on_link-StaysWellFormed h t payload need_flow s none v e =
    SameShape-IsWellFormed s _ (reopen_window-SameShape need_flow s) v
transfer_on_link-StaysWellFormed h t payload need_flow s (some (sending l)) v e =
    SameShape-IsWellFormed s _ (reopen_window-SameShape need_flow s) v
transfer_on_link-StaysWellFormed h t payload need_flow s (some (receiving r)) v e =
    finish_transfer-StaysWellFormed h need_flow s r _ v e
      (receive_transfer-ReceivedFace r t payload)

transfer_resolved-StaysWellFormed :
    (t : Transfer) (payload : Option Bytes) (s : Session) (o : Option ℕ)
    → IsWellFormed s
    → StaysWellFormed (transfer_resolved t payload s o)
unfolding transfer_resolved
transfer_resolved-StaysWellFormed t payload s none v = v
transfer_resolved-StaysWellFormed t payload s (some h) v =
    let s0 = record s { windows = (record_incoming s.windows).0 } in
    transfer_on_link-StaysWellFormed h t payload (record_incoming s.windows).1 s0 (get h s.links)
      (SameShape-IsWellFormed s s0 (SameShape-windows s (record_incoming s.windows).0) v) refl

pub on_transfer-StaysWellFormed :
    (t : Transfer) (payload : Option Bytes) (s : Session)
    → IsWellFormed s
    → StaysWellFormed (on_transfer t payload s)
unfolding on_transfer
on_transfer-StaysWellFormed t payload s v = transfer_resolved-StaysWellFormed t payload s _ v
