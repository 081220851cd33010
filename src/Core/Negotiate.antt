-- ===== src/Core/Negotiate.antt =====
-- ramqp-core/src/connection/negotiate.rs: the parameters agreed by the two `open`s. Times are in
-- milliseconds; the fields that only name the container and its host are left out.
use r_amqp.Common.{
  ℕ, ◌+◌, ◌/◌, ◌≤◌, ◌≡◌, arith, Option, none, some, ltb, if◌then◌else◌, min, max, u32_max,
}

abbrev pub min_max_frame_size : ℕ
min_max_frame_size = 512

pub record Open : Type 0 where
  pub max_frame_size : ℕ
  pub channel_max : ℕ
  pub idle_time_out : Option ℕ

pub record ConnectionConfig : Type 0 where
  pub max_frame_size : ℕ
  pub channel_max : ℕ
  pub idle_timeout : Option ℕ

pub record Negotiated : Type 0 where
  pub max_frame_size : ℕ
  pub channel_max : ℕ
  pub send_interval : Option ℕ
  pub recv_timeout : Option ℕ

-- `filter(|ms| *ms > 0)`.
abbrev pub positive : Option ℕ → Option ℕ
positive none = none
positive (some ms) = if ltb 0 ms then some ms else none

clamp_millis : Option ℕ → Option ℕ
clamp_millis none = none
clamp_millis (some ms) = some (min ms u32_max)

unfoldable pub build_open : ConnectionConfig → Open
unfolding clamp_millis
build_open config = record {
  max_frame_size = config.max_frame_size;
  channel_max = config.channel_max;
  idle_time_out = positive (clamp_millis config.idle_timeout);
}

half_of : Option ℕ → Option ℕ
half_of none = none
half_of (some ms) = some (max (ms / 2) 1)

-- `negotiate::reconcile`.
unfoldable pub negotiate : Open → Open → Negotiated
unfolding half_of
negotiate local remote = record {
  max_frame_size = max (min local.max_frame_size remote.max_frame_size) min_max_frame_size;
  channel_max = min local.channel_max remote.channel_max;
  send_interval = half_of (positive remote.idle_time_out);
  recv_timeout = positive local.idle_time_out;
}

-- Both ends come to the same frame size, 512 at least, and the same channel limit.
pub negotiate-agree :
    (a b : Open)
    → ((negotiate a b).max_frame_size ≡ (negotiate b a).max_frame_size)
      × ((negotiate a b).channel_max ≡ (negotiate b a).channel_max)
      × (min_max_frame_size ≤ (negotiate a b).max_frame_size)
unfolding negotiate
negotiate-agree a b = omega arith

-- A timeout and the interval of the keepalives that answer it: both or none, and the interval is
-- positive and half the timeout at most, or 1 where the timeout is 1.
abbrev pub KeepsAlive : Option ℕ → Option ℕ → Type 0
KeepsAlive none none = Unit {0}
KeepsAlive none (some interval) = ⊥
KeepsAlive (some timeout) none = ⊥
KeepsAlive (some timeout) (some interval) = (1 ≤ interval) × (interval + interval ≤ max timeout 2)

half_of-KeepsAlive : (o : Option ℕ) → KeepsAlive o (half_of o)
unfolding half_of
half_of-KeepsAlive none = tt
half_of-KeepsAlive (some t) = omega arith

-- Where one end enforces an idle timeout, the other end has a keepalive interval of at least 1
-- that, twice over, is within the timeout or 2; where it enforces none, there is no interval.
pub negotiate-KeepsAlive :
    (a b : Open) → KeepsAlive (negotiate b a).recv_timeout (negotiate a b).send_interval
unfolding negotiate
negotiate-KeepsAlive a b = half_of-KeepsAlive (positive b.idle_time_out)
