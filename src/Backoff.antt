-- ===== src/Backoff.antt =====
-- src/cert_publisher/workqueue.py, classes ExponentialBackoff and RateLimitingQueue. A delay is a
-- whole number of units of time, the jitter a whole number of thousandths, and the draw of
-- `random.uniform(-jitter, jitter)` an argument, in thousandths; the product is rounded to the unit.
pub mod Growth
pub mod Requeue
mod Examples
use cert_publisher.Prelude.{
  ℕ, zero, suc, ◌+◌, ◌*◌, ◌/◌, ◌^◌, min, String, Option, none, some, [], nat_eq, if◌then◌else◌,
}
use cert_publisher.Prelude.Keys.{Dict, get, put, remove}
use cert_publisher.Prelude.Int.{ℤ, pos, negsuc, sub_ℕ, ◌+ℤ◌}
use cert_publisher.WorkQueue
use cert_publisher.WorkQueue.{WorkQueue}

pub record ExponentialBackoff : Type 0 where
  pub base : ℕ
  pub maximum : ℕ
  pub jitter : ℕ
  pub counts : Dict ℕ

abbrev pub create : ℕ → ℕ → ℕ → ExponentialBackoff
create base maximum jitter = record { base = base; maximum = maximum; jitter = jitter; counts = [] }

or_zero : Option ℕ → ℕ
or_zero none = 0
or_zero (some n) = n

-- `self._failures.get(key, 0)`
pub failures : String → ExponentialBackoff → ℕ
unfolding or_zero
failures key b = or_zero (get key b.counts)

-- The delay before the jitter, after so many failures.
pub plain_delay : ExponentialBackoff → ℕ → ℕ
plain_delay b n = min (b.base * 2 ^ min n 32) b.maximum

-- `delay * (1 + draw)`. A draw below -1 makes it negative.
pub scale : ℕ → ℤ → ℤ
scale delay draw = elim (pos 1000 +ℤ draw) [
  | pos n ↦ pos (delay * n / 1000)
  | negsuc n ↦ sub_ℕ 0 (delay * suc n / 1000)
]

pub next_backoff : String → ℤ → ExponentialBackoff → ℤ × ExponentialBackoff
next_backoff key draw b = (
  if nat_eq b.jitter 0
      then pos (plain_delay b (failures key b))
      else scale (plain_delay b (failures key b)) draw,
  record b { counts = put key (failures key b + 1) b.counts },
)

pub forget : String → ExponentialBackoff → ExponentialBackoff
forget key b = record b { counts = remove key b.counts }

pub record RateLimitingQueue : Type 0 where
  pub queue : WorkQueue
  pub backoff : ExponentialBackoff

-- The delay comes back to the caller.
unfoldable pub add_rate_limited : String → ℤ → ℕ → RateLimitingQueue → ℤ × RateLimitingQueue
add_rate_limited key draw now q =
    let (delay, b) = next_backoff key draw q.backoff in
    (delay, record { queue = WorkQueue.add_after key delay now q.queue; backoff = b })

unfoldable pub queue_failures : String → RateLimitingQueue → ℕ
queue_failures key q = failures key q.backoff

unfoldable pub queue_forget : String → RateLimitingQueue → RateLimitingQueue
queue_forget key q = record q { backoff = forget key q.backoff }
