-- ===== src/WorkQueue/Promotion.antt =====
-- The delayed adds: the heap holds an entry for every deadline, the nearest deadline of a key wins,
-- and a promotion leaves nothing behind that was due.
use cert_publisher.Prelude.{
  ℕ, ◌+◌, ◌≤◌, ◌<◌, min, String, ◌≡◌, refl, inl, inr, Bool, true, false, ◌&&◌, ◌||◌, Option, none,
  some, List, [], ◌∷◌, All, All-map, arith, eq_iff, ◌==◌, leb, nat_eq, if◌then◌else◌, Bool-cases,
  leb→lt,
}
use cert_publisher.Prelude.Keys.{get, remove, get-remove, get-put, Dict}
use cert_publisher.Prelude.Int.{ℤ, pos, pos_part}
use cert_publisher.WorkQueue.{
  Entry, WorkQueue, heappush, add_locked, schedule, settle, promote_from, add, add_after,
  promote_due, get_round, take_key, done, shutdown, Call, adds, adds_after, finishes, shuts_down,
  apply,
}
use cert_publisher.WorkQueue.Invariant.{after}

-- The heap has an entry for `key` at `due`.
unfoldable pub has_entry : String → ℕ → List Entry → Bool
has_entry key due [] = false
has_entry key due (w ∷ ws) = (w.key == key && nat_eq w.due due) || has_entry key due ws

abbrev pub IsSorted : List Entry → Type 0
IsSorted [] = Unit
IsSorted (w ∷ ws) = All (λ e. w.due ≤ e.due) ws × IsSorted ws

pub record IsScheduled (deadlines : Dict ℕ) (waiting : List Entry) : Type 0 where
  pub entered :
      (key : String) (due : ℕ) → get key deadlines ≡ some due → has_entry key due waiting ≡ true
  pub sorted : IsSorted waiting

has_entry-heappush :
    (key : String) (due : ℕ) (e : Entry) (ws : List Entry)
    → has_entry key due (heappush e ws)
      ≡ ((e.key == key && nat_eq e.due due) || has_entry key due ws)
unfolding has_entry heappush
has_entry-heappush key due e [] = refl
has_entry-heappush key due e (w ∷ ws) = ground (arith, has_entry-heappush key due e ws)

All-heappush :
    (n : ℕ) (e : Entry) (ws : List Entry)
    → n ≤ e.due
    → All (λ w. n ≤ w.due) ws
    → All (λ w. n ≤ w.due) (heappush e ws)
unfolding heappush
All-heappush n e [] h a = (h, tt)
All-heappush n e (w ∷ ws) h a = ground (arith, All-heappush n e ws)

heappush-IsSorted : (e : Entry) (ws : List Entry) → IsSorted ws → IsSorted (heappush e ws)
unfolding heappush
heappush-IsSorted e [] s = (tt, tt)
heappush-IsSorted e (w ∷ ws) s = ground (
  arith,
  heappush-IsSorted e ws,
  All-heappush w.due e ws,
  All-map (λ (x : Entry). w.due ≤ x.due) (λ (x : Entry). e.due ≤ x.due) ws,
)

abbrev pub IsTimely : WorkQueue → Type 0
IsTimely q = IsScheduled q.deadlines q.waiting

remove-IsScheduled :
    (key : String) (ds : Dict ℕ) (ws : List Entry)
    → IsScheduled ds ws
    → IsScheduled (remove key ds) ws
remove-IsScheduled key ds ws v = record {
  entered = λ k d h. ground (arith, v.entered k d, get-remove key k ds);
  sorted = v.sorted;
}

add_locked-IsTimely : (key : String) (q : WorkQueue) → IsTimely q → IsTimely (add_locked key q)
unfolding add_locked
add_locked-IsTimely key q v = ground (arith, v, remove-IsScheduled key q.deadlines q.waiting v)

schedule-IsTimely :
    (key : String) (due : ℕ) (q : WorkQueue) → IsTimely q → IsTimely (schedule key due q)
unfolding schedule
schedule-IsTimely key due q v = record {
  entered = λ k d h. ground (
    arith,
    v.entered k d,
    get-put key k due q.deadlines,
    has_entry-heappush k d (record { due = due; sequence = q.next_sequence; key = key }) q.waiting,
  );
  sorted = heappush-IsSorted _ q.waiting v.sorted;
}

add_after-IsTimely :
    (key : String) (delay : ℤ) (now : ℕ) (q : WorkQueue)
    → IsTimely q
    → IsTimely (add_after key delay now q)
unfolding add_after add
add_after-IsTimely key delay now q v =
    ground (arith, v, add_locked-IsTimely key q v, schedule-IsTimely key (now + pos_part delay) q v)

-- An entry that is popped is not needed any more once it is settled.
pub settle-entered :
    (w : Entry) (ws : List Entry) (q : WorkQueue)
    → IsScheduled q.deadlines (w ∷ ws)
    → IsScheduled (settle w q).deadlines ws
unfolding settle add_locked has_entry
settle-entered w ws q v = record {
  entered = λ k d h. ground (
    arith,
    v.entered k d,
    get-remove w.key k q.deadlines,
    get-remove w.key k (remove w.key q.deadlines),
    eq_iff w.key k,
  );
  sorted = v.sorted.1;
}

-- Nothing in the heap was due at `now`.
abbrev pub IsBeyond : ℕ → List Entry → Type 0
IsBeyond now ws = All (λ e. now < e.due) ws

pub IsBeyond-sorted :
    (now : ℕ) (w : Entry) (ws : List Entry)
    → now < w.due
    → IsSorted (w ∷ ws)
    → IsBeyond now (w ∷ ws)
IsBeyond-sorted now w ws h s = (
  h,
  All-map (λ (x : Entry). w.due ≤ x.due) (λ (x : Entry). now < x.due) ws (λ x l. omega arith) s.0,
)

promote_from-IsBeyond :
    (now : ℕ) (ws : List Entry) (q : WorkQueue)
    → IsScheduled q.deadlines ws
    → IsTimely (promote_from now ws q) × IsBeyond now (promote_from now ws q).waiting
unfolding promote_from
promote_from-IsBeyond now [] q v = (record { entered = v.entered; sorted = tt }, tt)
promote_from-IsBeyond now (w ∷ ws) q v = elim (Bool-cases (leb w.due now)) [
  | inl e ↦ simp e (promote_from-IsBeyond now ws (settle w q) (settle-entered w ws q v))
  | inr e ↦ simp e (
      (
        record { entered = v.entered; sorted = v.sorted },
        IsBeyond-sorted now w ws (leb→lt w.due now e) v.sorted,
      ))
]

pub promote_due-IsTimely : (now : ℕ) (q : WorkQueue) → IsTimely q → IsTimely (promote_due now q)
unfolding promote_due
promote_due-IsTimely now q v = (promote_from-IsBeyond now q.waiting q v).0

pub has_entry-beyond :
    (now : ℕ) (key : String) (due : ℕ) (ws : List Entry)
    → IsBeyond now ws
    → has_entry key due ws ≡ true
    → now < due
unfolding has_entry
has_entry-beyond now key due [] b h = cc
has_entry-beyond now key due (w ∷ ws) b h = ground (arith, has_entry-beyond now key due ws)

-- If the heap is sorted and has an entry for every deadline, then after a promotion at `now` every
-- deadline that is left lies after `now`.
pub promote_due-deadline :
    (now : ℕ) (q : WorkQueue) (key : String) (due : ℕ)
    → IsTimely q
    → get key (promote_due now q).deadlines ≡ some due
    → now < due
unfolding promote_due
promote_due-deadline now q key due v h =
    let r = promote_from-IsBeyond now q.waiting q v in
    has_entry-beyond now key due _ r.1 (r.0.entered key due h)

-- The deadline of a key after a delayed add: the nearer of the two.
unfoldable pub nearest : Option ℕ → ℕ → ℕ
nearest none due = due
nearest (some existing) due = min existing due

-- A delayed add of a key by a positive delay, on a queue that is not shut down, leaves the key with
-- the nearer of its old deadline and the new one, and leaves the deadlines of the other keys alone.
pub add_after-deadline :
    (key j : String) (delay now : ℕ) (q : WorkQueue)
    → q.is_shutdown ≡ false
    → 0 < delay
    → get j (add_after key (pos delay) now q).deadlines
      ≡ (if key == j then some (nearest (get key q.deadlines) (now + delay)) else get j q.deadlines)
unfolding add_after schedule nearest
add_after-deadline key j delay now q o p =
    ground (arith, get-put key j (now + delay) q.deadlines, eq_iff key j)

take_key-IsTimely :
    (deadline now : ℕ) (q : WorkQueue) (keys : List String)
    → IsTimely q
    → IsTimely (after (take_key deadline now q keys))
unfolding take_key
take_key-IsTimely deadline now q [] v = ground (arith, v)
take_key-IsTimely deadline now q (key ∷ rest) v = v

pub get_round-IsTimely :
    (deadline promote_at now : ℕ) (q : WorkQueue)
    → IsTimely q
    → IsTimely (after (get_round deadline promote_at now q))
unfolding get_round
get_round-IsTimely deadline promote_at now q v = elim (Bool-cases q.is_shutdown) [
  | inl e ↦ simp e v
  | inr e ↦ simp e (take_key-IsTimely deadline now _ _ (promote_due-IsTimely promote_at q v))
]

-- Every method call of another thread keeps the schedule: the heap is sorted and has an entry for
-- every deadline.
pub apply-IsTimely : (c : Call) (q : WorkQueue) → IsTimely q → IsTimely (apply c q)
unfolding apply add done shutdown
apply-IsTimely (adds key) q v = add_locked-IsTimely key q v
apply-IsTimely (adds_after key delay now) q v = add_after-IsTimely key delay now q v
apply-IsTimely (finishes key) q v = ground (arith, v)
apply-IsTimely shuts_down q v = v
