-- ===== src/Core/Allocator.antt =====
-- ramqp-core/src/session/registry.rs and connection/mux.rs: the allocators of link handles and of
-- channels, which are one program at two widths, and the maps from the peer's numbers to ours.
pub mod Live
use r_amqp.Common.{
  ℕ, suc, ◌+◌, ◌-◌, Option, none, some, List, [], ◌∷◌, leb, if◌then◌else◌, length, get, insert,
  remove, saturating_sub,
}

-- `max` is `handle_max` or `channel_max`; the head of `free` is the end of the vector.
pub record Allocator : Type 0 where
  pub max : ℕ
  pub next : ℕ
  pub free : List ℕ

unfoldable pub new_allocator : ℕ → Allocator
new_allocator max = record { max = max; next = 0; free = [] }

allocate_from : Allocator → List ℕ → Option ℕ × Allocator
allocate_from a [] =
    if leb a.next a.max then (some a.next, record a { next = a.next + 1 }) else (none, a)
allocate_from a (n ∷ rest) = (some n, record a { free = rest })

-- `next` counts to `max + 1` at most, so it neither wraps nor is cut by the cast.
unfoldable pub allocate : Allocator → Option ℕ × Allocator
unfolding allocate_from
allocate a = allocate_from a a.free

unfoldable pub release : Allocator → ℕ → Allocator
release a n = record a { free = n ∷ a.free }

unfoldable pub in_use : Allocator → ℕ
in_use a = saturating_sub a.next (length a.free)

-- `RemoteHandleMap` and `RemoteChannelMap`: the peer's number to ours.
abbrev pub RemoteMap : Type 0
RemoteMap = List (ℕ × ℕ)

unfoldable pub bind : ℕ → ℕ → RemoteMap → RemoteMap
bind remote local m = insert remote local m

unfoldable pub resolve : ℕ → RemoteMap → Option ℕ
resolve remote m = get remote m

unfoldable pub unbind : ℕ → RemoteMap → RemoteMap
unbind remote m = remove remote m
