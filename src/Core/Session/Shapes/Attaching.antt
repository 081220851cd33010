-- ===== src/Core/Session/Shapes/Attaching.antt =====
-- ramqp-core/src/session/state.rs: attaching and detaching links keeps a session well formed.
use r_amqp.Common.{
  ℕ, ◌≡◌, refl, arith, inl, inr, Bool, Option, none, some, ◌∷◌, get, insert, Option-cases, ==_iff,
  ==_refl,
}
use r_amqp.Core.Performatives.{AmqpError, Attach, Detach, Role, sender, receiver, opposite}
use r_amqp.Core.Credit.{CreditMode}
use r_amqp.Core.Allocator.{Allocator, allocate, bind, release, resolve}
use r_amqp.Core.Allocator.Live.{
  allocate-Allocated, allocate-none, IsConsistent, release-IsConsistent, without, times-without,
}
use r_amqp.Core.Session.State.{
  Link, sending, receiving, remote_handle_of, set_remote_handle, mark_attached, take_pending_attach,
  ReceiverLink, new_sender, new_receiver, Session, initial_credit,
}
use r_amqp.Core.Session.Names.{link_key, get_key, insert_key}
use r_amqp.Core.Session.Links.{
  attach_link, attach_at, link_for, on_peer_attach, peer_attach_named, peer_attach_at, bind_link,
  bound_link, granted,
}
use r_amqp.Core.Session.Accepting.{
  Accepting, accepted_link, not_accepted, accept_peer_attach, accept_at, mirror, refuse_peer_attach,
  refuse_at,
}
use r_amqp.Core.Session.Flowing.{detach_link, on_peer_detach, peer_detach_at}
use r_amqp.Core.Session.Inbound.{remote_of, unbind_remote}
use r_amqp.Core.Session.WellFormed.{IsWellFormed, keys}
use r_amqp.Core.Session.Keeping.{
  added-IsWellFormed, bound-IsWellFormed, forget_link-IsWellFormed, IsConsistent-times,
}

-- The session that accepting leaves.
unfoldable pub left_by : Accepting → Session
left_by (accepted_link s effects h role) = s
left_by (not_accepted k s) = s

attach_role-IsWellFormed :
    (role : Role) (a : Attach) (mode : CreditMode) (reply : ℕ) (s : Session) (h : ℕ)
    (handles : Allocator)
    → IsWellFormed s
    → get_key (a.name, role) s.link_handles ≡ none
    → allocate s.handles ≡ (some h, handles)
    → IsWellFormed (record s {
      handles = handles;
      link_handles = insert_key (a.name, role) h s.link_handles;
      links = insert h (link_for role h a mode reply) s.links;
    })
unfolding link_for link_key remote_handle_of new_sender new_receiver
attach_role-IsWellFormed sender a mode reply s h handles v q e =
    added-IsWellFormed s v h handles (link_for sender h a mode reply) e _ q refl refl
attach_role-IsWellFormed receiver a mode reply s h handles v q e =
    added-IsWellFormed s v h handles (link_for receiver h a mode reply) e _ q refl refl

attach_at-IsWellFormed :
    (a : Attach) (mode : CreditMode) (reply : ℕ) (s : Session) (r : Option ℕ × Allocator)
    → IsWellFormed s
    → get_key (a.name, a.role) s.link_handles ≡ none
    → allocate s.handles ≡ r
    → IsWellFormed (attach_at a mode reply s r).0
unfolding attach_at
attach_at-IsWellFormed a mode reply s (none, handles) v q e =
    rw (allocate-none s.handles handles e) v
attach_at-IsWellFormed a mode reply s (some h, handles) v q e =
    attach_role-IsWellFormed a.role a mode reply s h handles v q e

refuse_at-IsWellFormed :
    (a : Attach) (error : AmqpError) (s : Session) (r : Option ℕ × Allocator)
    → IsWellFormed s
    → allocate s.handles ≡ r
    → IsWellFormed (refuse_at a error s r).0
unfolding refuse_at
refuse_at-IsWellFormed a error s (none, handles) v e = rw (allocate-none s.handles handles e) v
refuse_at-IsWellFormed a error s (some h, handles) v e =
    let x = allocate-Allocated s.handles (keys s.links) h handles v.handles e in
    let free : IsConsistent (release handles h) (without h (h ∷ keys s.links)) =
      release-IsConsistent handles (h ∷ keys s.links) h x.2 (ground (arith, x.1, ==_refl h)) in
    record {
      handles =
          IsConsistent-times (release handles h) (without h (h ∷ keys s.links)) (keys s.links)
            (λ n. ground (arith, times-without n h (keys s.links), x.1, ==_iff n h)) free;
      named = v.named;
      indexed = v.indexed;
      own = v.own;
      bound = v.bound;
    }

remote_of-none : (o : Option Link) {r : ℕ} → o ≡ none → remote_of o ≡ some r → ⊥
unfolding remote_of
remote_of-none none e q = cc
remote_of-none (some l) e q = cc

peer_detach_at-IsWellFormed :
    (d : Detach) (s : Session) (o : Option ℕ)
    → IsWellFormed s
    → get d.handle s.remote_handles ≡ o
    → IsWellFormed (peer_detach_at d s o).0
unfolding peer_detach_at unbind_remote
peer_detach_at-IsWellFormed d s none v e = v
peer_detach_at-IsWellFormed d s (some h) v e =
    let q = v.bound d.handle h e in
    elim (Option-cases (get h s.links)) [
      | inl gone ↦ absurd (remote_of-none (get h s.links) gone q)
      | inr (l, found) ↦ rw q at (forget_link-IsWellFormed s v h l found)
    ]

pub detach_link-IsWellFormed :
    (h : ℕ) (closed : Bool) (error : Option AmqpError) (reply : ℕ) (s : Session)
    → IsWellFormed s
    → IsWellFormed (detach_link h closed error reply s).0
unfolding detach_link
detach_link-IsWellFormed h closed error reply s v = elim (Option-cases (get h s.links)) [
  | inl e ↦ rw e v
  | inr (l, e) ↦ rw e (rw e at (forget_link-IsWellFormed s v h l e))
]

-- A grant changes the credit alone.
granted-face :
    (credit : ℕ) (r : ReceiverLink)
    → ((granted credit r).name ≡ r.name)
      × ((granted credit r).handle ≡ r.handle)
      × ((granted credit r).remote_handle ≡ r.remote_handle)
unfolding granted
granted-face credit r = (ground arith, ground arith, ground arith)

bind_link-IsWellFormed :
    (a : Attach) (h : ℕ) (l : Link) (s : Session)
    → IsWellFormed s
    → get h s.links ≡ some l
    → remote_handle_of l ≡ none
    → IsWellFormed (bind_link a h l s).0
unfolding bind_link bound_link take_pending_attach link_key remote_handle_of
bind_link-IsWellFormed a h (sending l) s v e free =
    bound-IsWellFormed s v h a.handle (sending l) _ e free refl refl refl
bind_link-IsWellFormed a h (receiving l) s v e free =
    let g = λ (r : ReceiverLink). granted-face (initial_credit r) r in
    bound-IsWellFormed s v h a.handle (receiving l) _ e free (rw (g _).0 refl) (g _).1 (g _).2

accept_role-IsWellFormed :
    (role : Role) (a : Attach) (mode : CreditMode) (c : ℕ) (max : Option ℕ) (s : Session) (h : ℕ)
    (handles : Allocator)
    → IsWellFormed s
    → get_key (a.name, role) s.link_handles ≡ none
    → allocate s.handles ≡ (some h, handles)
    → IsWellFormed (record s {
      handles = handles;
      link_handles = insert_key (a.name, role) h s.link_handles;
      remote_handles = bind a.handle h s.remote_handles;
      links =
          insert h
            (mark_attached (set_remote_handle a.handle (mirror role h a mode c max)))
            s.links;
    })
unfolding mirror link_key remote_handle_of new_sender new_receiver mark_attached set_remote_handle
accept_role-IsWellFormed sender a mode c max s h handles v q e =
    added-IsWellFormed s v h handles
      (mark_attached (set_remote_handle a.handle (mirror sender h a mode c max))) e _ q refl refl
accept_role-IsWellFormed receiver a mode c max s h handles v q e =
    let g = λ (r : ReceiverLink). granted-face c r in
    added-IsWellFormed s v h handles
      (mark_attached (set_remote_handle a.handle (mirror receiver h a mode c max))) e _ q
      (rw (g _).0 refl) (g _).1

accept_at-IsWellFormed :
    (a : Attach) (mode : CreditMode) (c : ℕ) (max : Option ℕ) (role : Role) (s : Session)
    (r : Option ℕ × Allocator)
    → IsWellFormed s
    → get_key (a.name, role) s.link_handles ≡ none
    → allocate s.handles ≡ r
    → IsWellFormed (left_by (accept_at a mode c max role s r))
unfolding accept_at left_by
accept_at-IsWellFormed a mode c max role s (none, handles) v q e =
    rw (allocate-none s.handles handles e) v
accept_at-IsWellFormed a mode c max role s (some h, handles) v q e =
    accept_role-IsWellFormed role a mode c max s h handles v q e

pub accept_peer_attach-IsWellFormed :
    (a : Attach) (mode : CreditMode) (c : ℕ) (max : Option ℕ) (s : Session)
    → IsWellFormed s
    → IsWellFormed (left_by (accept_peer_attach a mode c max s))
unfolding accept_peer_attach left_by
accept_peer_attach-IsWellFormed a mode c max s v =
    elim (Option-cases (get_key (a.name, opposite a.role) s.link_handles)) [
      | inl new ↦ rw new (accept_at-IsWellFormed a mode c max (opposite a.role) s _ v new refl)
      | inr (h, old) ↦ rw old v
    ]

peer_attach_at-IsWellFormed :
    (a : Attach) (h : ℕ) (s : Session) (o : Option Link)
    → IsWellFormed s
    → get h s.links ≡ o
    → IsWellFormed (peer_attach_at a h s o).0
unfolding peer_attach_at
peer_attach_at-IsWellFormed a h s none v e = v
peer_attach_at-IsWellFormed a h s (some l) v e = elim (Option-cases (remote_handle_of l)) [
  | inl free ↦ rw free (bind_link-IsWellFormed a h l s v e free)
  | inr (r, taken) ↦ rw taken v
]

peer_attach_named-IsWellFormed :
    (a : Attach) (s : Session) (o : Option ℕ)
    → IsWellFormed s
    → IsWellFormed (peer_attach_named a s o).0
unfolding peer_attach_named
peer_attach_named-IsWellFormed a s none v = v
peer_attach_named-IsWellFormed a s (some h) v =
    peer_attach_at-IsWellFormed a h s (get h s.links) v refl

pub on_peer_attach-IsWellFormed :
    (a : Attach) (s : Session) → IsWellFormed s → IsWellFormed (on_peer_attach a s).0
unfolding on_peer_attach
on_peer_attach-IsWellFormed a s v = peer_attach_named-IsWellFormed a s _ v

pub attach_link-IsWellFormed :
    (a : Attach) (mode : CreditMode) (reply : ℕ) (s : Session)
    → IsWellFormed s
    → get_key (a.name, a.role) s.link_handles ≡ none
    → IsWellFormed (attach_link a mode reply s).0
unfolding attach_link
attach_link-IsWellFormed a mode reply s v q =
    attach_at-IsWellFormed a mode reply s (allocate s.handles) v q refl

pub refuse_peer_attach-IsWellFormed :
    (a : Attach) (error : AmqpError) (s : Session)
    → IsWellFormed s
    → IsWellFormed (refuse_peer_attach a error s).0
unfolding refuse_peer_attach
refuse_peer_attach-IsWellFormed a error s v =
    refuse_at-IsWellFormed a error s (allocate s.handles) v refl

pub on_peer_detach-IsWellFormed :
    (d : Detach) (s : Session) → IsWellFormed s → IsWellFormed (on_peer_detach d s).0
unfolding on_peer_detach resolve
on_peer_detach-IsWellFormed d s v = peer_detach_at-IsWellFormed d s _ v refl
