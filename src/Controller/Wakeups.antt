-- ===== src/Controller/Wakeups.antt =====
-- src/cert_publisher/controller.py: how what the watchers see reaches the queue. A watcher calls
-- `self._queue.add` on the key of an event, and the publications' watcher `_enqueue_startup` on each
-- key of a list.
use cert_publisher.Prelude.{
  ℕ, suc, String, ◌≡◌, ◌⊎◌, inl, inr, subst, sym, true, Option, none, some, List, [], ◌∷◌,
}
use cert_publisher.Prelude.Keys.{Dict}
use cert_publisher.Prelude.Int.{ℤ}
use cert_publisher.Effects.{ok, raised, Result}
use cert_publisher.WorkQueue.{WorkQueue, add, add_after, apply}
use cert_publisher.WorkQueue as WorkQueue
use cert_publisher.WorkQueue.Owed.{IsOwed, apply-IsOwed, add-IsOwed, add_after-IsOwed}
use cert_publisher.Controller.Keys.{WatchedObject, publication_key}
use cert_publisher.Controller.Watcher.{
  WatchedResource, SeenState, Wakeup, adds, seeds, Listing, Watcher, sync, listed_version,
  take_listing, seed, wake_listed,
}

-- The draws of `random.uniform` over the startup window, and the monotonic clock, at each wake-up.
pub record Arrivals : Type 0 where
  pub scatter : ℕ → ℤ
  pub monotonic : ℕ → ℕ

-- `_enqueue_startup`, and `on_key`.
pub deliver : Arrivals → ℕ → Wakeup → WorkQueue → WorkQueue
deliver env n (adds key) q = add key q
deliver env n (seeds key) q = add_after key (env.scatter n) (env.monotonic n) q

pub deliver_all : Arrivals → ℕ → List Wakeup → WorkQueue → WorkQueue
unfolding deliver
deliver_all env n [] q = q
deliver_all env n (u ∷ us) q = deliver_all env (suc n) us (deliver env n u q)

-- The key is among the wake-ups.
abbrev pub Wakes : String → List Wakeup → Type 0
Wakes key [] = ⊥
Wakes key (adds k ∷ us) = (k ≡ key) ⊎ Wakes key us
Wakes key (seeds k ∷ us) = (k ≡ key) ⊎ Wakes key us

-- An object of the list has this key.
abbrev pub Lists : String → List WatchedObject → Type 0
Lists key [] = ⊥
Lists key (o ∷ os) = (publication_key o ≡ some key) ⊎ Lists key os

deliver-keeps :
    (env : Arrivals) (n : ℕ) (u : Wakeup) (key : String) (q : WorkQueue)
    → IsOwed key q
    → IsOwed key (deliver env n u q)
unfolding deliver WorkQueue.apply
deliver-keeps env n (adds k) key q o = apply-IsOwed key (WorkQueue.adds k) q o
deliver-keeps env n (seeds k) key q o =
    apply-IsOwed key (WorkQueue.adds_after k (env.scatter n) (env.monotonic n)) q o

deliver_all-keeps :
    (env : Arrivals) (n : ℕ) (us : List Wakeup) (key : String) (q : WorkQueue)
    → IsOwed key q
    → IsOwed key (deliver_all env n us q)
unfolding deliver_all
deliver_all-keeps env n [] key q o = o
deliver_all-keeps env n (u ∷ us) key q o =
    deliver_all-keeps env (suc n) us key (deliver env n u q) (deliver-keeps env n u key q o)

-- Every key that a watcher wakes is owed a reconcile afterwards.
pub deliver_all-IsOwed :
    (env : Arrivals) (n : ℕ) (us : List Wakeup) (key : String) (q : WorkQueue)
    → Wakes key us
    → IsOwed key (deliver_all env n us q)
unfolding deliver_all deliver
deliver_all-IsOwed env n [] key q h = elim h [ ]
deliver_all-IsOwed env n (adds k ∷ us) key q (inl e) =
    deliver_all-keeps env (suc n) us key _
      (subst (λ j. IsOwed key (add j q)) (sym e) (add-IsOwed key q))
deliver_all-IsOwed env n (seeds k ∷ us) key q (inl e) = deliver_all-keeps env (suc n) us key _ (
    subst (λ j. IsOwed key (add_after j (env.scatter n) (env.monotonic n) q)) (sym e)
      (add_after-IsOwed key _ _ q))
deliver_all-IsOwed env n (adds k ∷ us) key q (inr h) = deliver_all-IsOwed env (suc n) us key _ h
deliver_all-IsOwed env n (seeds k ∷ us) key q (inr h) = deliver_all-IsOwed env (suc n) us key _ h

wake_listed-Wakes :
    (k : Option String) (us : List Wakeup) (key : String)
    → (k ≡ some key) ⊎ Wakes key us
    → Wakes key (wake_listed k us)
unfolding wake_listed
wake_listed-Wakes none us key (inl e) = absurd cc
wake_listed-Wakes none us key (inr h) = h
wake_listed-Wakes (some k) us key (inl e) = inl cc
wake_listed-Wakes (some k) us key (inr h) = inr h

seed-Wakes :
    (os : List WatchedObject) (seen : Dict SeenState) (key : String)
    → Lists key os
    → Wakes key (seed os seen).0
unfolding seed
seed-Wakes [] seen key h = elim h [ ]
seed-Wakes (o ∷ os) seen key (inl e) = wake_listed-Wakes (publication_key o) _ key (inl e)
seed-Wakes (o ∷ os) seen key (inr h) =
    wake_listed-Wakes (publication_key o) _ key (inr (seed-Wakes os _ key h))

take_listing-Wakes :
    (r : WatchedResource) (now : ℕ) (l : Listing) (w : Watcher) (v : Result String)
    (version key : String)
    → r.is_publication ≡ true
    → (take_listing r now l w v).outcome ≡ ok version
    → Lists key l.items
    → Wakes key (take_listing r now l w v).woken
unfolding take_listing
take_listing-Wakes r now l w (ok v) version key p e h = simp p (seed-Wakes l.items [] key h)
take_listing-Wakes r now l w (raised x) version key p e h = absurd cc

-- A list of the publications that succeeds owes each publication that it names a reconcile, whatever
-- the watcher has seen before and whatever is in the queue, and at any draws of the startup window:
-- the key is pending in the queue behind the wake-ups, or the queue is shut down.
pub sync-IsOwed :
    (r : WatchedResource) (now : ℕ) (l : Listing) (w : Watcher) (version key : String)
    (env : Arrivals) (n : ℕ) (q : WorkQueue)
    → r.is_publication ≡ true
    → (sync r now (ok l) w).outcome ≡ ok version
    → Lists key l.items
    → IsOwed key (deliver_all env n (sync r now (ok l) w).woken q)
unfolding sync
sync-IsOwed r now l w version key env n q p e h =
    deliver_all-IsOwed env n _ key q
      (take_listing-Wakes r now l w (listed_version r l.version) version key p e h)
