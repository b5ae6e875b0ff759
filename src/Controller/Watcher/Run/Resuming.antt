-- ===== src/Controller/Watcher/Run/Resuming.antt =====
-- What the loop of a watcher does next, by how the last attempt to list and watch ended.
use cert_publisher.Prelude.{
  ℕ, ◌&&◌, ◌||◌, ◌≡◌, ◌⊎◌, refl, inl, inr, String, Bool, true, false, Option, none, some, List, [],
  ◌∷◌, ◌++◌, if◌then◌else◌, nat_eq, Bool-cases, arith, ap, sym, ◌∙◌,
}
use cert_publisher.Effects.{
  Kind, api_exception, value_error, lookup_error, runtime_error, os_error, ssh_exception,
  other_error, Exception,
}
use cert_publisher.Kube.{has_status}
use cert_publisher.Controller.Watcher.{WatchedResource, WatchConfig, Watcher, Wakeup, Turn, label}
use cert_publisher.Prelude.Int.{pos}
use cert_publisher.Backoff.{forget}
use cert_publisher.Controller.Watcher.Run.{
  Next, resumes, leaves, Step, attempt, is_access_lost, is_api, reconnect, back_off, succeeded,
  failed, settle, turn, run_from, run, pauses_and_stops,
}
use cert_publisher.Controller.Watcher.Run.Position.{IsPositioned, run-IsPositioned}

-- The API server refused access: the status is 401, 403 or 404.
abbrev pub IsRefused : Kind → Type 0
IsRefused kind =
    (status : ℕ) × (kind ≡ api_exception status)
    × ((status ≡ 401) ⊎ ((status ≡ 403) ⊎ (status ≡ 404)))

-- The version is too old for the API server.
abbrev pub IsExpired : Kind → Type 0
IsExpired kind = kind ≡ api_exception 410

-- The loop is left, with the stop event set, or goes on from this version, and with a list if there is none.
abbrev pub GoesOn : Turn → Option String → Next → Type 0
GoesOn t version next =
    ((next ≡ leaves) × ((t.stopped ≡ true) ⊎ (t.stopping ≡ true))) ⊎ (next ≡ resumes version)

-- What an attempt that ended with this failure, if any, and with this version known leads to.
abbrev pub Settles : Turn → Option Exception → Option String → Next → Watcher → Type 0
Settles t none version next w = GoesOn t version next
Settles t (some e) version next w =
    (IsRefused e.kind × GoesOn t none next × (w.synced ≡ false))
    ⊎ ((IsExpired e.kind × GoesOn t none next)
        ⊎ ((IsRefused e.kind → ⊥) × (IsExpired e.kind → ⊥) × GoesOn t version next))

-- One more iteration, from how the loop went on before it.
abbrev pub IsTurned : WatchedResource → Turn → Next → Watcher → Next → Watcher → Type 0
IsTurned r t leaves w next after = (next ≡ leaves) × (after ≡ w)
IsTurned r t (resumes version) w next after =
    let a = attempt r t version w in Settles t a.failure a.version next after

refused :
    (status : ℕ)
    → (nat_eq status 401 || (nat_eq status 403 || nat_eq status 404)) ≡ true
    → (status ≡ 401) ⊎ ((status ≡ 403) ⊎ (status ≡ 404))
refused status h = ground (arith, h)

is_access_lost-IsRefused : (kind : Kind) → is_access_lost kind ≡ true → IsRefused kind
unfolding is_access_lost
is_access_lost-IsRefused (api_exception status) h = (status, refl, refused status h)
is_access_lost-IsRefused value_error h = cc
is_access_lost-IsRefused lookup_error h = cc
is_access_lost-IsRefused runtime_error h = cc
is_access_lost-IsRefused os_error h = cc
is_access_lost-IsRefused ssh_exception h = cc
is_access_lost-IsRefused other_error h = cc

IsRefused-is_access_lost : (kind : Kind) → IsRefused kind → is_access_lost kind ≡ true
unfolding is_access_lost
IsRefused-is_access_lost kind (status, e, inl s) = rw (e, s) refl
IsRefused-is_access_lost kind (status, e, inr (inl s)) = rw (e, s) refl
IsRefused-is_access_lost kind (status, e, inr (inr s)) = rw (e, s) refl

has_status-IsExpired : (kind : Kind) → has_status 410 kind ≡ true → IsExpired kind
has_status-IsExpired (api_exception status) h = ap api_exception (ground (arith, h))
has_status-IsExpired value_error h = cc
has_status-IsExpired lookup_error h = cc
has_status-IsExpired runtime_error h = cc
has_status-IsExpired os_error h = cc
has_status-IsExpired ssh_exception h = cc
has_status-IsExpired other_error h = cc

unequal : true ≡ false → ⊥
unequal h = cc

GoesOn-if :
    (t : Turn) (b : Bool) (version : Option String)
    → (b ≡ true → t.stopped ≡ true)
    → GoesOn t version (if b then leaves else resumes version)
GoesOn-if t true version h = inl (refl, inl (h refl))
GoesOn-if t false version h = inr refl

both : (a b : Bool) → (a && b) ≡ true → b ≡ true
both a b h = ground (arith, h)

module _ (r : WatchedResource) (config : WatchConfig) (t : Turn) where
  reconnect-GoesOn :
      (version : Option String) (woken : List Wakeup) (w : Watcher)
      → GoesOn t version (reconnect r config t version woken w).next
  unfolding reconnect pauses_and_stops
  reconnect-GoesOn version woken w = GoesOn-if t _ version (both _ t.stopped)

  back_off-GoesOn :
      (version : Option String) (woken : List Wakeup) (w : Watcher)
      → GoesOn t version (back_off r config t version woken w).next
  unfolding back_off
  back_off-GoesOn version woken w = GoesOn-if t t.stopped version (λ h. h)

  back_off-synced :
      (version : Option String) (woken : List Wakeup) (w : Watcher)
      → (back_off r config t version woken w).watcher.synced ≡ w.synced
  unfolding back_off
  back_off-synced version woken w = refl

  unexpected :
      (b : Bool) (version : Option String) (woken : List Wakeup) (w : Watcher)
      → (b ≡ true → t.stopping ≡ true)
      → GoesOn t version
          (if b
            then record { next = leaves; woken = woken; watcher = w }
            else back_off r config t version woken w).next
  unexpected true version woken w h = inl (refl, inr (h refl))
  unexpected false version woken w h = back_off-GoesOn version woken w

  -- Neither an expired version nor refused access.
  otherwise :
      (e : Exception) (version : Option String) (woken : List Wakeup) (w : Watcher)
      → GoesOn t version
          (if is_api e.kind
            then back_off r config t version woken w
            else if t.stopping
            then record { next = leaves; woken = woken; watcher = w }
            else back_off r config t version woken w).next
  otherwise e version woken w = elim (Bool-cases (is_api e.kind)) [
    | inl b ↦ simp b (back_off-GoesOn version woken w)
    | inr b ↦ simp b (unexpected t.stopping version woken w (λ h. h))
  ]

  settle-Settles :
      (failure : Option Exception) (version : Option String) (woken : List Wakeup) (w : Watcher)
      → (let s = settle r config t failure version woken w in
          Settles t failure version s.next s.watcher)
  unfolding settle failed succeeded
  settle-Settles none version woken w =
      reconnect-GoesOn version woken
        (record w { last_healthy = pos t.ended; backoff = forget (label r) w.backoff })
  settle-Settles (some e) version woken w = elim (Bool-cases (has_status 410 e.kind)) [
    | inl b ↦ simp b (inr (inl (has_status-IsExpired e.kind b, reconnect-GoesOn none woken w)))
    | inr b ↦ elim (Bool-cases (is_access_lost e.kind)) [
      | inl d ↦
          simp (b, d)
            (inl (
              is_access_lost-IsRefused e.kind d,
              back_off-GoesOn none woken (record w { synced = false }),
              back_off-synced none woken (record w { synced = false }),
            ))
      | inr d ↦
          simp (b, d)
            (inr (
              inr (
                (λ h. unequal (sym (IsRefused-is_access_lost e.kind h) ∙ d)),
                (λ h. unequal (sym (ap (has_status 410) h) ∙ b)),
                otherwise e version woken w,
              )))
    ]
  ]

  run_one :
      (n : Next) (w : Watcher)
      → (let s = run_from r config (t ∷ []) n w in IsTurned r t n w s.next s.watcher)
  unfolding run_from turn
  run_one leaves w = (refl, refl)
  run_one (resumes version) w =
      let a = attempt r t version w in settle-Settles a.failure a.version a.woken a.watcher

  run_from-IsTurned :
      (ts : List Turn) (n : Next) (w : Watcher)
      → (let s = run_from r config ts n w in
          let u = run_from r config (ts ++ t ∷ []) n w in
          IsTurned r t s.next s.watcher u.next u.watcher)
  unfolding run_from
  run_from-IsTurned [] n w = run_one n w
  run_from-IsTurned (u ∷ ts) leaves w = (refl, refl)
  run_from-IsTurned (u ∷ ts) (resumes version) w =
      let s = turn r config u version w in run_from-IsTurned ts s.next s.watcher

-- How the loop goes on when it has made the iterations that led to `before`, and one more.
pub record Resumes (r : WatchedResource) (t : Turn) (before after : Step) : Type 0 where
  pub turned : IsTurned r t before.next before.watcher after.next after.watcher
  pub positioned : IsPositioned after.next after.watcher

-- However many iterations the loop has made, and whatever the server answered in them: after one more
-- it is left, which takes a stop event that is set, or goes on from the version that its attempt knew when it ended, except that it goes on with a list if
-- the attempt failed with the status 410, and with a list and as not synced if it failed with 401, 403 or 404. It goes on from a version only
-- while it counts as synced.
pub run-Resumes :
    (r : WatchedResource) (config : WatchConfig) (ts : List Turn) (t : Turn) (w : Watcher)
    → Resumes r t (run r config ts w) (run r config (ts ++ t ∷ []) w)
unfolding run
run-Resumes r config ts t w = record {
  turned = run_from-IsTurned r config t ts (resumes none) w;
  positioned = run-IsPositioned r config (ts ++ t ∷ []) w;
}
