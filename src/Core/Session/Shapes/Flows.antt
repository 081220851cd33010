-- ===== src/Core/Session/Shapes/Flows.antt =====
-- ramqp-core/src/session/state.rs: flows leave the shape of a session alone.
use r_amqp.Common.{ℕ, ◌≡◌, refl, Option, none, some, List, [], ◌∷◌, get}
use r_amqp.Core.Performatives.{Flow}
use r_amqp.Core.Window.{windows_on_flow}
use r_amqp.Core.Session.State.{Link, sending, receiving, remote_handle_of, Session, ReceiverLink}
use r_amqp.Core.Session.Names.{link_key}
use r_amqp.Core.Session.Sending.{flush_sender}
use r_amqp.Core.Session.Flowing.{
  grant_link_credit, grant_found, flush_all, on_flow, send_flow, set_on_flow, set_found,
  credit_on_flow, credit_found, flow_link, stalled,
}
use r_amqp.Core.Session.WellFormed.{IsWellFormed}
use r_amqp.Core.Session.Keeping.{SameShape, SameShape-trans, SameShape-IsWellFormed}
use r_amqp.Core.Session.Shapes.{
  SameFace, SameEnd-SameFace, SameShape-refl, SameShape-replace, SameShape-windows,
  flush_sender-SameShape,
}

-- A receiver of the same name, handle and remote handle.
pub receiving-SameFace :
    (r r' : ReceiverLink)
    → r'.name ≡ r.name
    → r'.handle ≡ r.handle
    → r'.remote_handle ≡ r.remote_handle
    → SameFace (receiving r) (receiving r')
unfolding link_key remote_handle_of
receiving-SameFace r r' en eh er = record { key = rw en refl; own = eh; remote = er }

grant_found-SameShape :
    (h credit : ℕ) (s : Session) (o : Option Link)
    → IsWellFormed s
    → get h s.links ≡ o
    → SameShape s (grant_found h credit s o).0
unfolding grant_found
grant_found-SameShape h credit s none v e = SameShape-refl s
grant_found-SameShape h credit s (some (sending l)) v e = SameShape-refl s
grant_found-SameShape h credit s (some (receiving r)) v e =
    SameShape-replace s s.windows h (receiving r) _ v e (receiving-SameFace r _ refl refl refl)

pub grant_link_credit-SameShape :
    (h credit : ℕ) (s : Session) → IsWellFormed s → SameShape s (grant_link_credit h credit s).0
unfolding grant_link_credit
grant_link_credit-SameShape h credit s v = grant_found-SameShape h credit s (get h s.links) v refl

set_found-SameShape :
    (c : Option ℕ) (h : ℕ) (s : Session) (o : Option Link)
    → IsWellFormed s
    → get h s.links ≡ o
    → SameShape s (set_found c h s o)
unfolding set_found
set_found-SameShape none h s o v e = SameShape-refl s
set_found-SameShape (some lc) h s none v e = SameShape-refl s
set_found-SameShape (some lc) h s (some (sending l)) v e = SameShape-refl s
set_found-SameShape (some lc) h s (some (receiving r)) v e =
    SameShape-replace s s.windows h (receiving r) _ v e (receiving-SameFace r _ refl refl refl)

set_on_flow-SameShape :
    (f : Flow) (s : Session) (o : Option ℕ) → IsWellFormed s → SameShape s (set_on_flow f s o)
unfolding set_on_flow
set_on_flow-SameShape f s none v = SameShape-refl s
set_on_flow-SameShape f s (some h) v = set_found-SameShape f.link_credit h s (get h s.links) v refl

pub send_flow-SameShape : (f : Flow) (s : Session) → IsWellFormed s → SameShape s (send_flow f s).0
unfolding send_flow
send_flow-SameShape f s v = set_on_flow-SameShape f s f.handle v

credit_found-SameShape :
    (f : Flow) (s : Session) (h : ℕ) (o : Option Link)
    → IsWellFormed s
    → get h s.links ≡ o
    → SameShape s (credit_found f s h o).0
unfolding credit_found
credit_found-SameShape f s h none v e = SameShape-refl s
credit_found-SameShape f s h (some (receiving r)) v e = SameShape-refl s
credit_found-SameShape f s h (some (sending l)) v e =
    SameShape-replace s s.windows h (sending l) _ v e
      (SameEnd-SameFace l _ (record { name = refl; handle = refl; remote_handle = refl }))

credit_on_flow-SameShape :
    (f : Flow) (s : Session) (o : Option ℕ) → IsWellFormed s → SameShape s (credit_on_flow f s o).0
unfolding credit_on_flow
credit_on_flow-SameShape f s none v = SameShape-refl s
credit_on_flow-SameShape f s (some h) v = credit_found-SameShape f s h (get h s.links) v refl

flush_all-SameShape :
    (hs : List ℕ) (m : ℕ) (s : Session) → IsWellFormed s → SameShape s (flush_all hs m s).0
unfolding flush_all
flush_all-SameShape [] m s v = SameShape-refl s
flush_all-SameShape (h ∷ hs) m s v =
    let one = flush_sender-SameShape h m s v in
    SameShape-trans one
      (flush_all-SameShape hs m (flush_sender h m s).0 (SameShape-IsWellFormed s _ one v))

pub on_flow-SameShape :
    (f : Flow) (m : ℕ) (s : Session) → IsWellFormed s → SameShape s (on_flow f m s).0
unfolding on_flow
on_flow-SameShape f m s v =
    let s0 = record s { windows = windows_on_flow s.windows f } in
    let x0 = SameShape-windows s (windows_on_flow s.windows f) in
    let v0 = SameShape-IsWellFormed s s0 x0 v in
    let x1 = credit_on_flow-SameShape f s0 (flow_link f s0) v0 in
    let s1 = (credit_on_flow f s0 (flow_link f s0)).0 in
    SameShape-trans x0 (
      SameShape-trans x1
        (flush_all-SameShape (stalled s1.links) m s1 (SameShape-IsWellFormed s0 s1 x1 v0)))
