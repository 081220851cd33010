-- ===== src/Core/Session/Shapes.antt =====
-- ramqp-core/src/session/state.rs: sends, flows and dispositions leave the shape of a session alone.
pub mod Flows
pub mod Dispositions
pub mod Attaching
pub mod Inbound
use r_amqp.Common.{
  ℕ, ◌≡◌, ◌⊎◌, refl, sym, ap, arith, inl, inr, ◌∙◌, Bool, true, false, Option, none, some, List, [],
  ◌∷◌, ◌++◌, if◌then◌else◌, get, insert, Option-cases, if_elim, Bool-cases, is_empty,
}
use r_amqp.Core.Performatives.{Flow, DeliveryState, Role, sender, receiver}
use r_amqp.Core.Window.{SessionWindows}
use r_amqp.Core.Allocator.Live.{times}
use r_amqp.Core.Unsettled.{apply_disposition}
use r_amqp.Core.Session.State.{
  PendingSend, SenderLink, next_delivery_tag, ReceiverLink, Link, sending, receiving,
  remote_handle_of, Session, Outcome, passed, failed_with, panicked, Effect,
}
use r_amqp.Core.Session.Sending.{
  Sent, send_one, may_send, flush_outbox, complete_drain, flush_link, flush_sender, flush_found,
  send_transfer, send_to_link,
}
use r_amqp.Core.Session.Names.{link_key}
use r_amqp.Core.Session.Inbound.{remote_of}
use r_amqp.Core.Session.Flowing.{
  grant_link_credit, grant_found, flush_all, on_flow, send_flow, set_on_flow, set_found,
  credit_on_flow, credit_found,
}
use r_amqp.Core.Session.WellFormed.{
  keys, handle_of, IsWellFormed, SameLinks, SameLinks-refl, insert-SameLinks,
}
use r_amqp.Core.Session.Keeping.{SameShape, SameShape-trans, SameShape-IsWellFormed, keys-once}

-- What the rest of a session sees of a link.
pub record SameFace (l l' : Link) : Type 0 where
  pub key : link_key l' ≡ link_key l
  pub own : handle_of l' ≡ handle_of l
  pub remote : remote_handle_of l' ≡ remote_handle_of l

pub SameShape-replace :
    (s : Session) (w : SessionWindows) (h : ℕ) (l l' : Link)
    → IsWellFormed s
    → get h s.links ≡ some l
    → SameFace l l'
    → SameShape s (record s { windows = w; links = insert h l' s.links })
SameShape-replace s w h l l' v e f = record {
  same_handles = refl;
  same_names = refl;
  same_bindings = refl;
  same_links = insert-SameLinks h l l' s.links e (keys-once s h v) f.key f.own f.remote;
}

pub SameShape-windows : (s : Session) (w : SessionWindows) → SameShape s (record s { windows = w })
SameShape-windows s w = record {
  same_handles = refl;
  same_names = refl;
  same_bindings = refl;
  same_links = SameLinks-refl s.links;
}

-- A sender of the same name, handle and remote handle.
pub record SameEnd (l l' : SenderLink) : Type 0 where
  pub name : l'.name ≡ l.name
  pub handle : l'.handle ≡ l.handle
  pub remote_handle : l'.remote_handle ≡ l.remote_handle

SameEnd-trans : {a b c : SenderLink} → SameEnd a b → SameEnd b c → SameEnd a c
SameEnd-trans x y = record {
  name = y.name ∙ x.name;
  handle = y.handle ∙ x.handle;
  remote_handle = y.remote_handle ∙ x.remote_handle;
}

pub SameEnd-SameFace : (l l' : SenderLink) → SameEnd l l' → SameFace (sending l) (sending l')
unfolding link_key remote_handle_of
SameEnd-SameFace l l' x = record {
  key = ap (λ n. (n, sender)) x.name;
  own = x.handle;
  remote = x.remote_handle;
}

send_one-SameEnd :
    (channel m : ℕ) (s : SenderLink) (w : SessionWindows) (p : PendingSend)
    → SameEnd s (send_one channel m s w p).link
unfolding send_one next_delivery_tag
send_one-SameEnd channel m s w p = elim (Bool-cases p.settled) [
  | inl e ↦ simp e (record { name = refl; handle = refl; remote_handle = refl })
  | inr e ↦ simp e (record { name = refl; handle = refl; remote_handle = refl })
]

flush_outbox-SameEnd :
    (channel m : ℕ) (s : SenderLink) (w : SessionWindows) (ps : List PendingSend)
    → SameEnd s (flush_outbox channel m s w ps).link
unfolding flush_outbox
flush_outbox-SameEnd channel m s w [] = record { name = refl; handle = refl; remote_handle = refl }
flush_outbox-SameEnd channel m s w (p ∷ ps) = elim (Bool-cases (may_send m s w p)) [
  | inl go ↦
      let one = send_one channel m s w p in
      rw go (
        SameEnd-trans (send_one-SameEnd channel m s w p)
          (flush_outbox-SameEnd channel m one.link one.windows ps))
  | inr wait ↦ rw wait (record { name = refl; handle = refl; remote_handle = refl })
]

complete_drain-SameEnd : (channel : ℕ) (r : Sent) → SameEnd r.link (complete_drain channel r).link
unfolding complete_drain
complete_drain-SameEnd channel r = record {
  name = ground arith;
  handle = ground arith;
  remote_handle = ground arith;
}

flush_link-SameEnd :
    (channel m : ℕ) (s : SenderLink) (w : SessionWindows)
    → SameEnd s (flush_link channel m s w).link
unfolding flush_link
flush_link-SameEnd channel m s w =
    SameEnd-trans (flush_outbox-SameEnd channel _ s w s.outbox) (complete_drain-SameEnd channel _)

-- What an operation makes of a session, if it has the same shape.
pub SameShape-refl : (s : Session) → SameShape s s
SameShape-refl s = SameShape-windows s s.windows

flush_found-SameShape :
    (h m : ℕ) (s : Session) (o : Option Link)
    → IsWellFormed s
    → get h s.links ≡ o
    → SameShape s (flush_found h m s o).0
unfolding flush_found
flush_found-SameShape h m s none v e = SameShape-refl s
flush_found-SameShape h m s (some (receiving l)) v e = SameShape-refl s
flush_found-SameShape h m s (some (sending l)) v e =
    SameShape-replace s _ h (sending l) _ v e
      (SameEnd-SameFace l _ (flush_link-SameEnd s.local_channel m l s.windows))

pub flush_sender-SameShape :
    (h m : ℕ) (s : Session) → IsWellFormed s → SameShape s (flush_sender h m s).0
unfolding flush_sender
flush_sender-SameShape h m s v = flush_found-SameShape h m s (get h s.links) v refl

send_to_link-SameShape :
    (h : ℕ) (p : PendingSend) (m : ℕ) (s : Session) (o : Option Link)
    → IsWellFormed s
    → get h s.links ≡ o
    → SameShape s (send_to_link h p m s o).0
unfolding send_to_link
send_to_link-SameShape h p m s none v e = SameShape-refl s
send_to_link-SameShape h p m s (some (receiving l)) v e = SameShape-refl s
send_to_link-SameShape h p m s (some (sending l)) v e =
    let queued : SameShape s _ =
      SameShape-replace s s.windows h (sending l)
        (sending (record l { outbox = l.outbox ++ (p ∷ []) })) v e
        (SameEnd-SameFace l _ (record { name = refl; handle = refl; remote_handle = refl })) in
    SameShape-trans queued (flush_sender-SameShape h m _ (SameShape-IsWellFormed s _ queued v))

pub send_transfer-SameShape :
    (h : ℕ) (p : PendingSend) (m : ℕ) (s : Session)
    → IsWellFormed s
    → SameShape s (send_transfer h p m s).0
unfolding send_transfer
send_transfer-SameShape h p m s v = send_to_link-SameShape h p m s (get h s.links) v refl

-- An outcome keeps the shape of the session; a panic leaves none.
abbrev pub KeepsShape : Session → Outcome → Type 0
KeepsShape s (passed s' effects) = SameShape s s'
KeepsShape s (failed_with k s') = SameShape s s'
KeepsShape s panicked = Unit
