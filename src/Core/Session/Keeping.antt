-- ===== src/Core/Session/Keeping.antt =====
-- ramqp-core/src/session/state.rs: the changes of a session that keep it well formed: links that are
-- rewritten in place, added, bound to a handle of the peer's, and forgotten.
use r_amqp.Common.{
  ℕ, ◌≤◌, ◌≡◌, ◌⊎◌, refl, sym, ap, arith, inl, inr, ◌∙◌, false, Option, none, some, List, [], ◌∷◌,
  ◌==◌, if◌then◌else◌, insert, get, remove, get-insert, get-remove, ==_iff, Option-cases,
}
use r_amqp.Core.Allocator.{Allocator, RemoteMap, allocate, bind, unbind, release}
use r_amqp.Core.Allocator.Live.{
  IsConsistent, times, without, times-without, release-IsConsistent, allocate-Allocated,
}
use r_amqp.Core.Session.State.{Link, remote_handle_of, Session}
use r_amqp.Core.Session.Names.{
  Key, link_key, get_key, insert_key, same_key, get_key-remove_key, get_key-insert_key,
  same_key_iff,
}
use r_amqp.Core.Session.Inbound.{remote_of, unbind_remote, forget_link, forget_key}
use r_amqp.Core.Session.WellFormed.{
  keys, handle_of, key_of, own_of, IsWellFormed, SameLinks, SameLinks-trans, keys-remove, times-key,
}

-- A session that differs in its windows, its phase, and what its links hold.
pub record SameShape (s s' : Session) : Type 0 where
  pub same_handles : s'.handles ≡ s.handles
  pub same_names : s'.link_handles ≡ s.link_handles
  pub same_bindings : s'.remote_handles ≡ s.remote_handles
  pub same_links : SameLinks s.links s'.links

pub SameShape-trans : {a b c : Session} → SameShape a b → SameShape b c → SameShape a c
SameShape-trans x y = record {
  same_handles = y.same_handles ∙ x.same_handles;
  same_names = y.same_names ∙ x.same_names;
  same_bindings = y.same_bindings ∙ x.same_bindings;
  same_links = SameLinks-trans x.same_links y.same_links;
}

pub IsConsistent-times :
    (a : Allocator) (live live' : List ℕ)
    → ((n : ℕ) → times n live' ≡ times n live)
    → IsConsistent a live
    → IsConsistent a live'
IsConsistent-times a live live' e c = record {
  within = c.within;
  split = λ n. omega (arith, e n, c.split n);
}

pub SameShape-IsWellFormed : (s s' : Session) → SameShape s s' → IsWellFormed s → IsWellFormed s'
SameShape-IsWellFormed s s' x v = record {
  handles = rw x.same_handles (
      IsConsistent-times s.handles (keys s.links) (keys s'.links) x.same_links.same_keys v.handles);
  named = λ h k e. ap (get_key k) x.same_names ∙ v.named h k (sym (x.same_links.same_key h) ∙ e);
  indexed =
      λ k h e. x.same_links.same_key h ∙ v.indexed k h (sym (ap (get_key k) x.same_names) ∙ e);
  own = λ h n e. v.own h n (sym (x.same_links.same_own h) ∙ e);
  bound = λ r h e. x.same_links.same_remote h ∙ v.bound r h (sym (ap (get r) x.same_bindings) ∙ e);
}

-- No handle has two links.
pub keys-once : (s : Session) (h : ℕ) → IsWellFormed s → times h (keys s.links) ≤ 1
keys-once s h v = ground (arith, v.handles.split h)

module _ (s : Session) (v : IsWellFormed s) (h : ℕ) (l : Link) (e : get h s.links ≡ some l) where
  forget-handles : IsConsistent (release s.handles h) (keys (remove h s.links))
  forget-handles =
      IsConsistent-times (release s.handles h) (without h (keys s.links)) (keys (remove h s.links))
        (λ n. keys-remove n h s.links)
        (release-IsConsistent s.handles (keys s.links) h v.handles
          (omega (arith, keys-once s h v, times-key h s.links l e)))

  get_key-forget :
      (k : Key)
      → get_key k (forget_key (get h s.links) s.link_handles)
        ≡ (if same_key (link_key l) k then none else get_key k s.link_handles)
  unfolding forget_key
  get_key-forget k = rw e (get_key-remove_key k (link_key l) s.link_handles)

  -- The handle of the peer's leads nowhere else, so no binding to the link is left.
  unbound :
      (r j : ℕ)
      → get r (unbind_remote (remote_of (get h s.links)) s.remote_handles) ≡ some j
      → (get r s.remote_handles ≡ some j) × ((j == h) ≡ false)
  unfolding unbind_remote unbind
  unbound r j q = elim (Option-cases (remote_of (get h s.links))) [
    | inl free ↦
        let q' : get r s.remote_handles ≡ some j = rw free at q in
        ground (arith, v.bound r j q', free, q')
    | inr (p, taken) ↦
        let q' : get r (remove p s.remote_handles) ≡ some j = rw taken at q in
        ground
          (arith, get-remove r p s.remote_handles, v.bound r j, taken, q', ==_iff r p, ==_iff j h)
  ]

  -- A link that is detached is forgotten under every name.
  pub forget_link-IsWellFormed : IsWellFormed (
      forget_link h
        (record s { remote_handles = unbind_remote (remote_of (get h s.links)) s.remote_handles }))
  unfolding forget_link
  forget_link-IsWellFormed = record {
    handles = forget-handles;
    named = λ j k q. ground (
      arith,
      get-remove j h s.links,
      get_key-forget k,
      v.named j k,
      v.named h k,
      same_key_iff (link_key l) k,
      ==_iff j h,
      ap key_of e,
    );
    indexed = λ k j q. ground (
      arith,
      get-remove j h s.links,
      get_key-forget k,
      v.indexed k j,
      same_key_iff (link_key l) k,
      ==_iff j h,
      ap key_of e,
    );
    own = λ j n q. ground (arith, get-remove j h s.links, v.own j n);
    bound = λ r j q. ground (arith, unbound r j q, get-remove j h s.links, v.bound r j);
  }

get-absent : (h : ℕ) (m : List (ℕ × Link)) → times h (keys m) ≡ 0 → get h m ≡ none
get-absent h [] e = refl
get-absent h ((j, l) ∷ m) e = ground (arith, get-absent h m)

-- The binding of a link that is added.
abbrev pub bound_to : Option ℕ → ℕ → RemoteMap → RemoteMap
bound_to none h m = m
bound_to (some r) h m = bind r h m

get-bound_to :
    (o : Option ℕ) (h q : ℕ) (m : RemoteMap) (j : ℕ)
    → get q (bound_to o h m) ≡ some j
    → ((o ≡ some q) × (j ≡ h)) ⊎ (get q m ≡ some j)
unfolding bind
get-bound_to none h q m j e = inr e
get-bound_to (some r) h q m j e = ground (arith, get-insert q r h m, ==_iff r q)

abbrev added : Session → ℕ → Allocator → Key → Link → Session
added s h handles k l = record s {
  handles = handles;
  link_handles = insert_key k h s.link_handles;
  remote_handles = bound_to (remote_handle_of l) h s.remote_handles;
  links = insert h l s.links;
}

module _ (s : Session) (v : IsWellFormed s) (h : ℕ) (handles : Allocator) (l : Link)
    (fresh : allocate s.handles ≡ (some h, handles)) (k : Key)
    (unnamed : get_key k s.link_handles ≡ none) (keyed : link_key l ≡ k)
    (owned : handle_of l ≡ h) where
  absent : get h s.links ≡ none
  absent =
      get-absent h s.links (allocate-Allocated s.handles (keys s.links) h handles v.handles fresh).1

  added-bound :
      (r j : ℕ)
      → get r (bound_to (remote_handle_of l) h s.remote_handles) ≡ some j
      → remote_of (get j (insert h l s.links)) ≡ some r
  unfolding remote_of
  added-bound r j q = elim (get-bound_to (remote_handle_of l) h r s.remote_handles j q) [
    | inl new ↦ ground (arith, new.0, new.1, get-insert j h l s.links, ==_iff h j)
    | inr old ↦ ground (arith, old, v.bound r j old, get-insert j h l s.links, ==_iff h j, absent)
  ]

  -- A link under a name that is not in use is added with a handle that is not in use.
  pub added-IsWellFormed : IsWellFormed (added s h handles k l)
  added-IsWellFormed =
      let a = allocate-Allocated s.handles (keys s.links) h handles v.handles fresh in
      record {
        handles =
            IsConsistent-times handles (h ∷ keys s.links) (keys (insert h l s.links))
              (λ n. ground (
                arith,
                keys-remove n h s.links,
                times-without n h (keys s.links),
                a.1,
                ==_iff h n,
                ==_iff n h,
              ))
              a.2;
        named = λ j n q. ground (
          arith,
          get-insert j h l s.links,
          get_key-insert_key n k h s.link_handles,
          v.named j n,
          same_key_iff k n,
          keyed,
          ==_iff h j,
          unnamed,
        );
        indexed = λ n j q. ground (
          arith,
          get-insert j h l s.links,
          get_key-insert_key n k h s.link_handles,
          v.indexed n j,
          same_key_iff k n,
          keyed,
          ==_iff h j,
          absent,
        );
        own = λ j n q. ground (arith, get-insert j h l s.links, v.own j n, ==_iff h j, owned);
        bound = added-bound;
      }

module _ (s : Session) (v : IsWellFormed s) (h r : ℕ) (l l' : Link) (e : get h s.links ≡ some l)
    (free : remote_handle_of l ≡ none) (same_name : link_key l' ≡ link_key l)
    (same_own : handle_of l' ≡ handle_of l) (taken : remote_handle_of l' ≡ some r) where
  -- A link without a handle of the peer's is bound to one.
  pub bound-IsWellFormed :
      IsWellFormed
        (record s { remote_handles = bind r h s.remote_handles; links = insert h l' s.links })
  unfolding bind remote_of
  bound-IsWellFormed = record {
    handles =
        IsConsistent-times s.handles (keys s.links) (keys (insert h l' s.links))
          (λ n. ground (
            arith,
            times-key h s.links l e,
            keys-once s h v,
            keys-remove n h s.links,
            times-without n h (keys s.links),
            ==_iff h n,
            ==_iff n h,
          ))
          v.handles;
    named = λ j k q.
        ground (arith, get-insert j h l' s.links, v.named j k, ==_iff h j, same_name, ap key_of e);
    indexed = λ k j q.
        ground
          (arith, get-insert j h l' s.links, v.indexed k j q, ==_iff h j, same_name, ap key_of e);
    own = λ j n q.
        ground (arith, get-insert j h l' s.links, v.own j n, ==_iff h j, same_own, ap own_of e);
    bound = λ q j g. ground (
      arith,
      get-insert q r h s.remote_handles,
      get-insert j h l' s.links,
      v.bound q j,
      ==_iff r q,
      ==_iff h j,
      taken,
      free,
      ap remote_of e,
    );
  }
