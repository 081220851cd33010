-- ===== src/Core/Heartbeat.antt =====
-- ramqp-core/src/connection/heartbeat.rs: the idle-timeout clock of a connection. An instant is a
-- number of nanoseconds, and a tick is given the instant at which it fires.
use r_amqp.Common.{
  subst, ◌⊎◌, if_elim, ℕ, ◌+◌, ◌-◌, ◌/◌, ◌≤◌, ◌≡◌, refl, arith, ap, inl, inr, Bool, true, false,
  Bool-cases, leb, if◌then◌else◌, Option, none, some, List, [], ◌∷◌, min, max,
}

pub data HeartbeatAction : Type 0 where
  idle send_empty peer_timed_out : HeartbeatAction

pub record Heartbeat : Type 0 where
  pub timer : Option ℕ
  pub send_after : Option ℕ
  pub recv_timeout : Option ℕ
  pub last_recv : ℕ
  pub last_send : ℕ
  pub recv_since_tick : Bool
  pub send_since_tick : Bool

-- The period of the check timer, a millisecond or more.
unfoldable pub check_period : Option ℕ → Option ℕ → Option ℕ
check_period (some s) (some r) = some (max (min s (r / 2)) 1_000_000)
check_period (some s) none = some (max s 1_000_000)
check_period none (some r) = some (max (r / 2) 1_000_000)
check_period none none = none

unfoldable pub new : (send_after recv_timeout : Option ℕ) → (now : ℕ) → Heartbeat
unfolding check_period
new send_after recv_timeout now = record {
  timer = check_period send_after recv_timeout;
  send_after = send_after;
  recv_timeout = recv_timeout;
  last_recv = now;
  last_send = now;
  recv_since_tick = false;
  send_since_tick = false;
}

unfoldable pub record_recv : Heartbeat → Heartbeat
record_recv h = record h { recv_since_tick = true }

unfoldable pub record_send : Heartbeat → Heartbeat
record_send h = record h { send_since_tick = true }

-- `now.saturating_duration_since(last) >= limit`, where there is a limit.
unfoldable pub is_due : Option ℕ → (last now : ℕ) → Bool
is_due none last now = false
is_due (some limit) last now = leb limit (now - last)

unfoldable pub fold_activity : (now : ℕ) → Heartbeat → Heartbeat
fold_activity now h = record h {
  last_recv = if h.recv_since_tick then now else h.last_recv;
  last_send = if h.send_since_tick then now else h.last_send;
  recv_since_tick = false;
  send_since_tick = false;
}

-- `tick`, once a timer is set and has fired.
unfoldable pub tick : (now : ℕ) → Heartbeat → HeartbeatAction × Heartbeat
unfolding is_due fold_activity
tick now h =
    let h' = fold_activity now h in
    (
      if is_due h'.recv_timeout h'.last_recv now
          then peer_timed_out
          else if is_due h'.send_after h'.last_send now
          then send_empty
          else idle,
      h',
    )

-- What happens to a clock, with the instant at which it happens.
pub data Event : Type 0 where
  received sent ticked : (now : ℕ) → Event

abbrev pub instant : Event → ℕ
instant (received now) = now
instant (sent now) = now
instant (ticked now) = now

unfoldable pub after : List Event → Heartbeat → Heartbeat
unfolding tick
after [] h = h
after (received now ∷ es) h = after es (record_recv h)
after (sent now ∷ es) h = after es (record_send h)
after (ticked now ∷ es) h = after es ((tick now h).1)

-- The instants rise from the first bound to the last.
abbrev pub IsOrdered : (from : ℕ) → List Event → (to : ℕ) → Type 0
IsOrdered from [] to = from ≤ to
IsOrdered from (e ∷ es) to = (from ≤ instant e) × IsOrdered (instant e) es to

-- Every frame that was received was received at least a while before the instant.
abbrev pub AllReceivedBefore : (while now : ℕ) → List Event → Type 0
AllReceivedBefore while now [] = Unit
AllReceivedBefore while now (received t ∷ es) = (t + while ≤ now) × AllReceivedBefore while now es
AllReceivedBefore while now (sent t ∷ es) = AllReceivedBefore while now es
AllReceivedBefore while now (ticked t ∷ es) = AllReceivedBefore while now es

IsOrdered-bound : (from : ℕ) (es : List Event) (to : ℕ) → IsOrdered from es to → from ≤ to
IsOrdered-bound from [] to h = h
IsOrdered-bound from (e ∷ es) to (low, h) =
    let r : instant e ≤ to = IsOrdered-bound (instant e) es to h in omega arith

-- The clock knows of a frame received at an instant.
abbrev Knows : ℕ → Heartbeat → Type 0
Knows t h = (h.recv_since_tick ≡ true) ⊎ (t ≤ h.last_recv)

tick-Knows : (t now : ℕ) (h : Heartbeat) → t ≤ now → Knows t h → Knows t (fold_activity now h)
unfolding fold_activity
tick-Knows t now h le (inl e) = inr (rw e le)
tick-Knows t now h le (inr known) =
    inr (if_elim (λ x. t ≤ x) (λ x. x) h.recv_since_tick now h.last_recv le known)

after-Knows :
    (t from : ℕ) (es : List Event) (to : ℕ) (h : Heartbeat)
    → t ≤ from
    → IsOrdered from es to
    → Knows t h
    → Knows t (after es h)
unfolding after tick record_recv record_send
after-Knows t from [] to h le o k = k
after-Knows t from (received now ∷ es) to h le (low, o) k =
    after-Knows t now es to (record_recv h) (omega arith) o (inl refl)
after-Knows t from (sent now ∷ es) to h le (low, o) k =
    after-Knows t now es to (record_send h) (omega arith) o k
after-Knows t from (ticked now ∷ es) to h le (low, o) k =
    after-Knows t now es to (fold_activity now h) (omega arith) o
      (tick-Knows t now h (omega arith) k)

due-before :
    (t while now : ℕ) (h : Heartbeat)
    → t ≤ now
    → Knows t h
    → is_due (some while) (fold_activity now h).last_recv now ≡ true
    → t + while ≤ now
unfolding is_due fold_activity
due-before t while now h le k d = elim (Bool-cases h.recv_since_tick) [
  | inl e ↦ let d' : leb while (now - now) ≡ true = rw e at d in ground arith
  | inr e ↦
      let d' : leb while (now - h.last_recv) ≡ true = rw e at d in
      elim k [ inl e' ↦ ground (arith, e, e') | inr known ↦ ground arith ]
]

is_timed_out : HeartbeatAction → Bool
is_timed_out idle = false
is_timed_out send_empty = false
is_timed_out peer_timed_out = true

action-due :
    (late due : Bool)
    → (if late then peer_timed_out else if due then send_empty else idle) ≡ peer_timed_out
    → late ≡ true
unfolding is_timed_out
action-due true due e = refl
action-due false true e = ap is_timed_out e
action-due false false e = ap is_timed_out e

-- A tick that reports the time-out found the receive time-out due.
timed_out-due :
    (while now : ℕ) (h : Heartbeat)
    → h.recv_timeout ≡ some while
    → (tick now h).0 ≡ peer_timed_out
    → is_due (some while) (fold_activity now h).last_recv now ≡ true
unfolding tick
timed_out-due while now h r e =
    subst (λ o. is_due o (fold_activity now h).last_recv now ≡ true) r
      (action-due (is_due h.recv_timeout (fold_activity now h).last_recv now)
        (is_due h.send_after (fold_activity now h).last_send now) e)

after-recv_timeout : (es : List Event) (h : Heartbeat) → (after es h).recv_timeout ≡ h.recv_timeout
unfolding after tick record_recv record_send fold_activity
after-recv_timeout [] h = refl
after-recv_timeout (received now ∷ es) h = after-recv_timeout es (record_recv h)
after-recv_timeout (sent now ∷ es) h = after-recv_timeout es (record_send h)
after-recv_timeout (ticked now ∷ es) h = after-recv_timeout es (fold_activity now h)

due-AllReceivedBefore :
    (while now from : ℕ) (es : List Event) (h : Heartbeat)
    → IsOrdered from es now
    → is_due (some while) (fold_activity now (after es h)).last_recv now ≡ true
    → AllReceivedBefore while now es
unfolding after tick record_recv record_send
due-AllReceivedBefore while now from [] h o d = tt
due-AllReceivedBefore while now from (received t ∷ es) h (low, o) d = (
  due-before t while now (after es (record_recv h)) (IsOrdered-bound t es now o)
      (after-Knows t t es now (record_recv h) (omega arith) o (inl refl)) d,
  due-AllReceivedBefore while now t es (record_recv h) o d,
)
due-AllReceivedBefore while now from (sent t ∷ es) h (low, o) d =
    due-AllReceivedBefore while now t es (record_send h) o d
due-AllReceivedBefore while now from (ticked t ∷ es) h (low, o) d =
    due-AllReceivedBefore while now t es (fold_activity t h) o d

-- A clock that was started, and then told of the frames received and sent and ticked in the order of
-- their instants, reports at its next tick that the peer has timed out only when every frame received
-- so far was received the receive time-out or longer before.
pub tick-peer_timed_out :
    (send_after : Option ℕ) (while start now : ℕ) (es : List Event)
    → IsOrdered start es now
    → (tick now (after es (new send_after (some while) start))).0 ≡ peer_timed_out
    → AllReceivedBefore while now es
unfolding new
tick-peer_timed_out send_after while start now es o e =
    due-AllReceivedBefore while now start es (new send_after (some while) start) o (
      timed_out-due while now (after es (new send_after (some while) start))
        (after-recv_timeout es (new send_after (some while) start)) e)
