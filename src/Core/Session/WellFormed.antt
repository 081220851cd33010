-- ===== src/Core/Session/WellFormed.antt =====
-- ramqp-core/src/session/state.rs: what a session keeps in step: its links, their handles, their
-- names, and the peer's handles for them.
use r_amqp.Common.{
  ℕ, ◌≤◌, ◌≡◌, refl, arith, ◌∙◌, Option, none, some, List, [], ◌∷◌, insert, get, remove, get-remove,
  ==_iff,
}
use r_amqp.Core.Allocator.Live.{IsConsistent, times, without, times-without}
use r_amqp.Core.Session.State.{Link, sending, receiving, remote_handle_of, Session}
use r_amqp.Core.Session.Names.{Key, link_key, get_key}
use r_amqp.Core.Session.Inbound.{remote_of}

-- The handles that have a link.
abbrev pub keys : List (ℕ × Link) → List ℕ
keys [] = []
keys ((h, l) ∷ m) = h ∷ keys m

abbrev pub handle_of : Link → ℕ
handle_of (sending l) = l.handle
handle_of (receiving l) = l.handle

abbrev pub key_of : Option Link → Option Key
key_of none = none
key_of (some l) = some (link_key l)

abbrev pub own_of : Option Link → Option ℕ
own_of none = none
own_of (some l) = some (handle_of l)

-- Each number of the handles' range is free or has a link, once; a link is indexed under its name and
-- role, and nothing else is indexed; a link knows its handle; a handle of the peer's that is bound
-- leads to the link that has it.
pub record IsWellFormed (s : Session) : Type 0 where
  pub handles : IsConsistent s.handles (keys s.links)
  pub named :
      (h : ℕ) (k : Key) → key_of (get h s.links) ≡ some k → get_key k s.link_handles ≡ some h
  pub indexed :
      (k : Key) (h : ℕ) → get_key k s.link_handles ≡ some h → key_of (get h s.links) ≡ some k
  pub own : (h n : ℕ) → own_of (get h s.links) ≡ some n → n ≡ h
  pub bound : (r h : ℕ) → get r s.remote_handles ≡ some h → remote_of (get h s.links) ≡ some r

-- The same handles, each with a link of the same name, role, handle and remote handle.
pub record SameLinks (m m' : List (ℕ × Link)) : Type 0 where
  pub same_keys : (n : ℕ) → times n (keys m') ≡ times n (keys m)
  pub same_key : (h : ℕ) → key_of (get h m') ≡ key_of (get h m)
  pub same_own : (h : ℕ) → own_of (get h m') ≡ own_of (get h m)
  pub same_remote : (h : ℕ) → remote_of (get h m') ≡ remote_of (get h m)

pub SameLinks-refl : (m : List (ℕ × Link)) → SameLinks m m
SameLinks-refl m = record {
  same_keys = λ n. refl;
  same_key = λ h. refl;
  same_own = λ h. refl;
  same_remote = λ h. refl;
}

pub SameLinks-trans : {a b c : List (ℕ × Link)} → SameLinks a b → SameLinks b c → SameLinks a c
SameLinks-trans x y = record {
  same_keys = λ n. y.same_keys n ∙ x.same_keys n;
  same_key = λ h. y.same_key h ∙ x.same_key h;
  same_own = λ h. y.same_own h ∙ x.same_own h;
  same_remote = λ h. y.same_remote h ∙ x.same_remote h;
}

pub keys-remove :
    (n k : ℕ) (m : List (ℕ × Link)) → times n (keys (remove k m)) ≡ times n (without k (keys m))
keys-remove n k [] = refl
keys-remove n k ((j, l) ∷ m) = ground (arith, keys-remove n k m)

pub times-key : (h : ℕ) (m : List (ℕ × Link)) (l : Link) → get h m ≡ some l → 1 ≤ times h (keys m)
times-key h [] l e = cc
times-key h ((j, x) ∷ m) l e = ground (arith, times-key h m l)

-- A link is replaced by one that differs only in what the other parts do not see.
pub insert-SameLinks :
    (h : ℕ) (l l' : Link) (m : List (ℕ × Link))
    → get h m ≡ some l
    → times h (keys m) ≤ 1
    → link_key l' ≡ link_key l
    → handle_of l' ≡ handle_of l
    → remote_handle_of l' ≡ remote_handle_of l
    → SameLinks m (insert h l' m)
unfolding remote_of
insert-SameLinks h l l' m e u ek eo er = record {
  same_keys = λ n. ground (
    arith,
    times-key h m l e,
    keys-remove n h m,
    times-without n h (keys m),
    ==_iff h n,
    ==_iff n h,
  );
  same_key = λ j. ground (arith, get-remove j h m, ==_iff h j, ==_iff j h, ek, e);
  same_own = λ j. ground (arith, get-remove j h m, ==_iff h j, ==_iff j h, eo, e);
  same_remote = λ j. ground (arith, get-remove j h m, ==_iff h j, ==_iff j h, er, e);
}
