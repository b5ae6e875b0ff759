-- ===== src/WorkQueue/Spec.antt =====
-- What the queue promises, without its sets and its heap: every key is in one of four phases and
-- has a deadline or none, and the keys that are queued stand in one line.
use cert_publisher.Prelude.{
  ℕ, ◌+◌, String, ◌≡◌, Bool, true, false, Option, none, some, List, [], ◌∷◌, ◌++◌, leb, ◌==◌,
  if◌then◌else◌,
}
use cert_publisher.Prelude.Keys.{contains, get}
use cert_publisher.Prelude.Int.{ℤ, pos, pos_part, leb_ℤ}
use cert_publisher.WorkQueue.Promotion.{nearest}
use cert_publisher.WorkQueue.{
  WorkQueue, Call, adds, adds_after, finishes, shuts_down, Round, handed, gave_up, waits,
}
pub mod Refines
pub mod Expiry

-- Rerun: in flight, and to be queued again when its reconcile ends.
pub data Phase : Type 0 where
  idle : Phase
  queued : Phase
  running : Phase
  rerun : Phase

pub record Spec : Type 0 where
  pub line : List String
  pub phase : String → Phase
  pub deadline : String → Option ℕ
  pub closed : Bool

unfoldable pub phase_of : Bool → Bool → Phase
phase_of false false = idle
phase_of true false = queued
phase_of false true = running
phase_of true true = rerun

-- The queue as its callers see it.
abbrev pub view : WorkQueue → Spec
view q = record {
  line = q.queue;
  phase = λ k. phase_of (contains k q.dirty) (contains k q.processing);
  deadline = λ k. get k q.deadlines;
  closed = q.is_shutdown;
}

unfoldable pub update {ℓ} : {A : Type ℓ} → String → A → (String → A) → String → A
update key v f k = if key == k then v else f k

-- A request by the key's phase: a key that is queued already or will be is left alone.
unfoldable pub request_in : Phase → String → Spec → Spec
unfolding update
request_in idle key s = record s {
  line = s.line ++ key ∷ [];
  phase = update key queued s.phase;
  deadline = update key none s.deadline;
}
request_in queued key s = s
request_in running key s = record s {
  phase = update key rerun s.phase;
  deadline = update key none s.deadline;
}
request_in rerun key s = s

unfoldable pub request : String → Spec → Spec
unfolding request_in
request key s = if s.closed then s else request_in (s.phase key) key s

unfoldable pub defer : String → ℕ → Spec → Spec
unfolding nearest update
defer key due s =
    if s.closed
    then s
    else record s { deadline = update key (some (nearest (s.deadline key) due)) s.deadline }

unfoldable pub finish_in : Phase → String → Spec → Spec
unfolding update
finish_in idle key s = s
finish_in queued key s = s
finish_in running key s = record s { phase = update key idle s.phase }
finish_in rerun key s = record s { line = s.line ++ key ∷ []; phase = update key queued s.phase }

unfoldable pub finish : String → Spec → Spec
unfolding finish_in
finish key s = finish_in (s.phase key) key s

-- What a call of another thread does.
unfoldable pub perform : Call → Spec → Spec
unfolding request defer finish
perform (adds key) s = request key s
perform (adds_after key delay now) s =
    if leb_ℤ delay (pos 0) then request key s else defer key (now + pos_part delay) s
perform (finishes key) s = finish key s
perform shuts_down s = record s { closed = true }

-- A key's phase and deadline at a time: when its deadline has come it is requested.
unfoldable pub is_due : Option ℕ → ℕ → Bool
is_due none now = false
is_due (some due) now = leb due now

unfoldable pub requested : Phase → Phase
requested idle = queued
requested queued = queued
requested running = rerun
requested rerun = rerun

-- The deadlines that have come by `now` are acted on, in some order: every key with one is
-- requested and has no deadline after, the others are left alone, and who stands in the line keeps
-- the place.
pub record Expires (now : ℕ) (s t : Spec) : Type 0 where
  pub news : List String
  pub line : t.line ≡ s.line ++ news
  pub phase :
      (k : String)
      → t.phase k ≡ (if is_due (s.deadline k) now then requested (s.phase k) else s.phase k)
  pub deadline :
      (k : String) → t.deadline k ≡ (if is_due (s.deadline k) now then none else s.deadline k)
  pub closed : t.closed ≡ s.closed

-- The head of the line is handed out, if there is one.
unfoldable pub serve_from : List String → Spec → Option String × Spec
unfolding update
serve_from [] s = (none, s)
serve_from (key ∷ rest) s = (some key, record s { line = rest; phase = update key running s.phase })

-- What the caller of one round of `get` sees.
abbrev pub seen : Round → Option String × Spec
seen (handed key q) = (some key, view q)
seen (gave_up q) = (none, view q)
seen (waits t q) = (none, view q)

-- A round refuses when the queue is closed. Otherwise it serves the line, once the deadlines that
-- have come are acted on.
pub data Serves (now : ℕ) (s : Spec) (r : Option String × Spec) : Type 0 where
  refuses : s.closed ≡ true → r ≡ (none, s) → Serves now s r
  serves :
      (t : Spec) → s.closed ≡ false → Expires now s t → r ≡ serve_from t.line t → Serves now s r
