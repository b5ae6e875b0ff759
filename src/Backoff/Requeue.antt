-- ===== src/Backoff/Requeue.antt =====
-- The retries of a key: what a failure and a success do to the counts and to the queue.
use cert_publisher.Prelude.{ℕ, ◌+◌, String, ◌≡◌, refl, arith, true, false, ◌==◌, if◌then◌else◌}
use cert_publisher.Prelude.Keys.{get-put, get-remove}
use cert_publisher.Prelude.Int.{ℤ}
use cert_publisher.WorkQueue.Pending.{is_pending, add_after-pending}
use cert_publisher.Backoff.{
  ExponentialBackoff, failures, next_backoff, forget, RateLimitingQueue, add_rate_limited,
  queue_failures,
}

-- A failure counts one more for its key and nothing for any other.
pub failures-next_backoff :
    (key j : String) (draw : ℤ) (b : ExponentialBackoff)
    → failures j (next_backoff key draw b).1
      ≡ (if key == j then failures key b + 1 else failures j b)
unfolding failures next_backoff
failures-next_backoff key j draw b = ground (arith, get-put key j (failures key b + 1) b.counts)

-- A success clears the count of its key and no other.
pub failures-forget :
    (key j : String) (b : ExponentialBackoff)
    → failures j (forget key b) ≡ (if key == j then 0 else failures j b)
unfolding failures forget
failures-forget key j b = ground (arith, get-remove key j b.counts)

-- A failed key is requeued: on a queue that is not shut down it is pending, its count of failures is
-- one higher, that of every other key is as it was, and the caller learns the delay that was used.
pub add_rate_limited_lem :
    (key j : String) (draw : ℤ) (now : ℕ) (q : RateLimitingQueue)
    → q.queue.is_shutdown ≡ false
    → (is_pending key (add_rate_limited key draw now q).1.queue ≡ true)
      × (queue_failures j (add_rate_limited key draw now q).1
          ≡ (if key == j then queue_failures key q + 1 else queue_failures j q))
      × ((add_rate_limited key draw now q).0 ≡ (next_backoff key draw q.backoff).0)
unfolding add_rate_limited queue_failures
add_rate_limited_lem key j draw now q o =
    (add_after-pending key _ now q.queue o, failures-next_backoff key j draw q.backoff, refl)
