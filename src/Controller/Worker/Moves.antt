-- ===== src/Controller/Worker/Moves.antt =====
-- What the steps of the other threads leave alone while a worker holds a key.
use cert_publisher.Prelude.{String, ℕ, List, [], ◌∷◌, All}
use cert_publisher.Prelude.Int.{ℤ}
use cert_publisher.WorkQueue.{add_after, adds_after}
use cert_publisher.WorkQueue.Owed.{
  IsHeld, IsOwed, Spares, apply-IsHeld, apply-IsOwed, get_round-IsHeld, get_round-IsOwed,
}
use cert_publisher.WorkQueue.{apply}
use cert_publisher.Backoff.{RateLimitingQueue, add_rate_limited, queue_forget}
use cert_publisher.Controller.Worker.{Move, calls, rounds, fails, succeeds, apply_move, apply_moves}

-- The step is not the end of another worker's reconcile of this key: no other worker holds it.
abbrev pub SparesMove : String → Move → Type 0
SparesMove k (calls c) = Spares k c
SparesMove k _ = Unit

-- What a worker's round keeps.
pub record IsKept (k : String) (q : RateLimitingQueue) : Type 0 where
  pub held : IsHeld k q.queue
  pub owed : IsOwed k q.queue

module _ (k : String) where
  delayed-IsHeld :
      (key : String) (delay : ℤ) (now : ℕ) (q : RateLimitingQueue)
      → IsHeld k q.queue
      → IsHeld k (add_after key delay now q.queue)
  delayed-IsHeld key delay now q v =
      unfold apply in apply-IsHeld k (adds_after key delay now) q.queue tt v

  delayed-IsOwed :
      (key : String) (delay : ℤ) (now : ℕ) (q : RateLimitingQueue)
      → IsOwed k q.queue
      → IsOwed k (add_after key delay now q.queue)
  delayed-IsOwed key delay now q o =
      unfold apply in apply-IsOwed k (adds_after key delay now) q.queue o

  pub apply_move-IsHeld :
      (m : Move) (q : RateLimitingQueue)
      → SparesMove k m
      → IsHeld k q.queue
      → IsHeld k (apply_move m q).queue
  unfolding apply_move add_rate_limited queue_forget
  apply_move-IsHeld (calls c) q s v = apply-IsHeld k c q.queue s v
  apply_move-IsHeld (rounds deadline promote_at now) q s v =
      (get_round-IsHeld k deadline promote_at now q.queue v).0
  apply_move-IsHeld (fails key draw now) q s v = delayed-IsHeld key _ now q v
  apply_move-IsHeld (succeeds key) q s v = v

  pub apply_move-IsOwed :
      (m : Move) (q : RateLimitingQueue)
      → IsHeld k q.queue
      → IsOwed k q.queue
      → IsOwed k (apply_move m q).queue
  unfolding apply_move add_rate_limited queue_forget
  apply_move-IsOwed (calls c) q v o = apply-IsOwed k c q.queue o
  apply_move-IsOwed (rounds deadline promote_at now) q v o =
      get_round-IsOwed k deadline promote_at now q.queue v o
  apply_move-IsOwed (fails key draw now) q v o = delayed-IsOwed key _ now q o
  apply_move-IsOwed (succeeds key) q v o = o

  pub apply_moves-IsHeld :
      (ms : List Move) (q : RateLimitingQueue)
      → All (SparesMove k) ms
      → IsHeld k q.queue
      → IsHeld k (apply_moves ms q).queue
  unfolding apply_moves
  apply_moves-IsHeld [] q s v = v
  apply_moves-IsHeld (m ∷ ms) q s v =
      apply_moves-IsHeld ms (apply_move m q) s.1 (apply_move-IsHeld m q s.0 v)

  pub apply_moves-IsOwed :
      (ms : List Move) (q : RateLimitingQueue)
      → All (SparesMove k) ms
      → IsHeld k q.queue
      → IsOwed k q.queue
      → IsOwed k (apply_moves ms q).queue
  unfolding apply_moves
  apply_moves-IsOwed [] q s v o = o
  apply_moves-IsOwed (m ∷ ms) q s v o =
      apply_moves-IsOwed ms (apply_move m q) s.1 (apply_move-IsHeld m q s.0 v)
        (apply_move-IsOwed m q v o)
