-- ===== src/WorkQueue/Owed.antt =====
-- A key that a worker holds, while the other threads act on the queue.
use cert_publisher.Prelude.{
  ℕ, String, ◌≡◌, ◌⊎◌, inl, inr, true, false, List, [], ◌∷◌, arith, eq_iff, ◌==◌, refl, leb,
  Bool-cases,
}
use cert_publisher.Prelude.Keys.{contains, remove, contains-insert, contains-discard, self_eq}
use cert_publisher.Prelude.Int.{ℤ, pos}
use cert_publisher.WorkQueue.{
  Entry, WorkQueue, add_locked, schedule, settle, promote_from, add, add_after, promote_due,
  get_round, take_key, done, shutdown, Call, adds, adds_after, finishes, shuts_down, apply,
}
use cert_publisher.WorkQueue.Invariant.{after, contains-append}
use cert_publisher.WorkQueue.Pending.{
  is_pending, Hands, apply-pending, get_round-pending, add_after-pending,
}
use cert_publisher.WorkQueue.Blocking.{apply-is_shutdown}

-- The key is in flight and not queued.
pub record IsHeld (k : String) (q : WorkQueue) : Type 0 where
  pub in_flight : contains k q.processing ≡ true
  pub unqueued : contains k q.queue ≡ false

-- The key will be reconciled again, unless the process ends.
abbrev pub IsOwed : String → WorkQueue → Type 0
IsOwed k q = (q.is_shutdown ≡ true) ⊎ (is_pending k q ≡ true)

-- What another thread does not call while a worker holds the key.
abbrev pub Spares : String → Call → Type 0
Spares k (finishes key) = (key == k) ≡ false
Spares k _ = Unit

module _ (k : String) where
  add_locked-IsHeld : (key : String) (q : WorkQueue) → IsHeld k q → IsHeld k (add_locked key q)
  unfolding add_locked
  add_locked-IsHeld key q v = record {
    in_flight = ground (arith, v.in_flight);
    unqueued = ground (arith, v.in_flight, v.unqueued, contains-append k key q.queue, eq_iff key k);
  }

  add_after-IsHeld :
      (key : String) (delay : ℤ) (now : ℕ) (q : WorkQueue)
      → IsHeld k q
      → IsHeld k (add_after key delay now q)
  unfolding add_after schedule add
  add_after-IsHeld key delay now q v = record {
    in_flight = ground (arith, v.in_flight, (add_locked-IsHeld key q v).in_flight);
    unqueued = ground (arith, v.unqueued, (add_locked-IsHeld key q v).unqueued);
  }

  done-IsHeld :
      (key : String) (q : WorkQueue) → (key == k) ≡ false → IsHeld k q → IsHeld k (done key q)
  unfolding done
  done-IsHeld key q n v = record {
    in_flight = ground (arith, v.in_flight, contains-discard key k q.processing);
    unqueued = ground (arith, v.unqueued, contains-append k key q.queue);
  }

  settle-IsHeld : (w : Entry) (q : WorkQueue) → IsHeld k q → IsHeld k (settle w q)
  unfolding settle
  settle-IsHeld w q v =
      let a =
        add_locked-IsHeld w.key (record q { deadlines = remove w.key q.deadlines })
          (record { in_flight = v.in_flight; unqueued = v.unqueued }) in
      record {
        in_flight = ground (arith, v.in_flight, a.in_flight);
        unqueued = ground (arith, v.unqueued, a.unqueued);
      }

  promote_from-IsHeld :
      (now : ℕ) (ws : List Entry) (q : WorkQueue) → IsHeld k q → IsHeld k (promote_from now ws q)
  unfolding promote_from
  promote_from-IsHeld now [] q v = record { in_flight = v.in_flight; unqueued = v.unqueued }
  promote_from-IsHeld now (w ∷ ws) q v = elim (Bool-cases (leb w.due now)) [
    | inl e ↦ rw e (promote_from-IsHeld now ws (settle w q) (settle-IsHeld w q v))
    | inr e ↦ rw e (record { in_flight = v.in_flight; unqueued = v.unqueued })
  ]

  take_key-IsHeld :
      (deadline now : ℕ) (q : WorkQueue) (keys : List String)
      → q.queue ≡ keys
      → IsHeld k q
      → IsHeld k (after (take_key deadline now q keys))
        × (Hands k (take_key deadline now q keys) → ⊥)
  unfolding take_key contains
  take_key-IsHeld deadline now q [] e v = ground (arith, v)
  take_key-IsHeld deadline now q (key ∷ rest) e v = (
    record {
      in_flight = ground (arith, v.in_flight, contains-insert key k q.processing);
      unqueued = ground (arith, v.unqueued);
    },
    λ h. ground (arith, v.unqueued, self_eq k),
  )

  pub get_round-IsHeld :
      (deadline promote_at now : ℕ) (q : WorkQueue)
      → IsHeld k q
      → IsHeld k (after (get_round deadline promote_at now q))
        × (Hands k (get_round deadline promote_at now q) → ⊥)
  unfolding get_round promote_due
  get_round-IsHeld deadline promote_at now q v = elim (Bool-cases q.is_shutdown) [
    | inl e ↦ simp e (v, λ h. h)
    | inr e ↦
        simp e
          (take_key-IsHeld deadline now _ _ refl (promote_from-IsHeld promote_at q.waiting q v))
  ]

-- A method call of another thread, `done` of another key at most, leaves the key in flight and not
-- queued.
pub apply-IsHeld :
    (k : String) (c : Call) (q : WorkQueue) → Spares k c → IsHeld k q → IsHeld k (apply c q)
unfolding apply add
apply-IsHeld k (adds key) q s v = add_locked-IsHeld k key q v
apply-IsHeld k (adds_after key delay now) q s v = add_after-IsHeld k key delay now q v
apply-IsHeld k (finishes key) q s v = done-IsHeld k key q s v
apply-IsHeld k shuts_down q s v =
    unfold shutdown in record { in_flight = v.in_flight; unqueued = v.unqueued }

-- No method call settles what a key is owed.
pub apply-IsOwed : (k : String) (c : Call) (q : WorkQueue) → IsOwed k q → IsOwed k (apply c q)
apply-IsOwed k c q (inl s) = inl (apply-is_shutdown c q s)
apply-IsOwed k c q (inr p) = inr (apply-pending k c q p)

get_round-is_shutdown :
    (deadline promote_at now : ℕ) (q : WorkQueue)
    → q.is_shutdown ≡ true
    → (after (get_round deadline promote_at now q)).is_shutdown ≡ true
unfolding get_round
get_round-is_shutdown deadline promote_at now q h = simp h

-- A key in flight is not handed out again, so it stays owed.
pub get_round-IsOwed :
    (k : String) (deadline promote_at now : ℕ) (q : WorkQueue)
    → IsHeld k q
    → IsOwed k q
    → IsOwed k (after (get_round deadline promote_at now q))
get_round-IsOwed k deadline promote_at now q v (inl s) =
    inl (get_round-is_shutdown deadline promote_at now q s)
get_round-IsOwed k deadline promote_at now q v (inr p) =
    elim (get_round-pending k deadline promote_at now q p) [
      | inl h ↦ absurd ((get_round-IsHeld k deadline promote_at now q v).1 h)
      | inr p' ↦ inr p'
    ]

-- A delayed add leaves its key owed, whatever the delay, or finds the queue shut down.
pub add_after-IsOwed :
    (k : String) (delay : ℤ) (now : ℕ) (q : WorkQueue) → IsOwed k (add_after k delay now q)
unfolding apply
add_after-IsOwed k delay now q = elim (Bool-cases q.is_shutdown) [
  | inl e ↦ apply-IsOwed k (adds_after k delay now) q (inl e)
  | inr e ↦ inr (add_after-pending k delay now q e)
]

pub add-IsOwed : (k : String) (q : WorkQueue) → IsOwed k (add k q)
unfolding add_after
add-IsOwed k q = add_after-IsOwed k (pos 0) 0 q
