-- ===== src/Retry/Attempts.antt =====
-- How often a call is tried, what ends the tries, and how long they pause.
use native.Mathlib.Nat.{pow-suc}
use cert_publisher.Prelude.{
  ℕ, zero, suc, ◌+◌, ◌-◌, ◌*◌, ◌^◌, ◌≤◌, ◌<◌, String, ◌≡◌, ◌⊎◌, refl, inl, inr, Bool, true, false,
  List, [], ◌∷◌, arith, length, Bool-cases, subst,
}
use cert_publisher.Prelude.Int.{ℤ}
use cert_publisher.Effects.{Kind, Exception, Result, ok, raised}
use cert_publisher.Retry.{
  Run, exhausted, slept, ended, final, earlier, try_from, at_least_one, with_retries,
}

pub total : List ℕ → ℕ
total [] = 0
total (d ∷ ds) = d + total ds

module _ {A : Type 0} (func : ℕ → Result A) (retryable : Kind → Bool) (str : ℕ → String)
    (description : String) (base_delay : ℕ) (attempts : ℕ) where
  -- An answer that is tried again.
  abbrev pub IsTransient : Result A → Type 0
  IsTransient (ok a) = ⊥
  IsTransient (raised e) = retryable e.kind ≡ true

  -- What the last call answered, and what the caller gets: the answer itself, or the error that
  -- names the operation once the retries are used up.
  abbrev pub Ends : ℕ → ℕ → Result A → Result A → Type 0
  Ends used left (ok a) r = r ≡ ok a
  Ends used left (raised e) r =
      ((retryable e.kind ≡ false) × (r ≡ raised e))
      ⊎ ((retryable e.kind ≡ true)
          × (used ≡ left)
          × (r ≡ raised (exhausted func retryable str description base_delay attempts e)))

  -- A run after `done` attempts, with at most `left` attempts behind its first: one call more than
  -- pauses, every call but the last to be tried again, and pauses that double.
  pub record IsRun (left done : ℕ) (r : Run A) : Type 0 where
    pub count : r.calls ≡ suc (length r.sleeps)
    pub bounded : length r.sleeps ≤ left
    pub transient : (k : ℕ) → k < length r.sleeps → IsTransient (func (done + k))
    pub ends : Ends (length r.sleeps) left (func (done + length r.sleeps)) r.outcome
    pub paused : total r.sleeps + base_delay * 2 ^ done ≡ base_delay * 2 ^ (done + length r.sleeps)

  at_zero : (P : Result A → Type 0) (done : ℕ) → P (func done) → P (func (done + 0))
  at_zero P done p = let e : done ≡ done + 0 = omega arith in subst (λ n. P (func n)) e p

  at_suc : (P : Result A → Type 0) (done k : ℕ) → P (func (suc done + k)) → P (func (done + suc k))
  at_suc P done k p =
      let e : suc done + k ≡ done + suc k = omega arith in subst (λ n. P (func n)) e p

  ended-IsRun :
      (left done : ℕ) (x : Result A) (r : Result A)
      → func done ≡ x
      → Ends 0 left x r
      → IsRun left done (ended r)
  unfolding total
  ended-IsRun left done x r e h = record {
    count = refl;
    bounded = omega arith;
    transient = λ k l. absurd (omega arith);
    ends = at_zero (λ y. Ends 0 left y r) done (rw e h);
    paused = let e : done + 0 ≡ done = omega arith in rw e (omega arith);
  }

  final-IsRun :
      (done : ℕ) (x : Result A)
      → func done ≡ x
      → IsRun 0 done (final func retryable str description base_delay attempts x)
  unfolding final
  final-IsRun done (ok a) e = ended-IsRun 0 done (ok a) (ok a) e refl
  final-IsRun done (raised x) e = elim (Bool-cases (retryable x.kind)) [
    | inl h ↦ simp h (ended-IsRun 0 done (raised x) _ e (inr (h, refl, refl)))
    | inr h ↦ simp h (ended-IsRun 0 done (raised x) _ e (inl (h, refl)))
  ]

  slept-IsRun :
      (left done : ℕ) (x : Exception) (r : Run A)
      → func done ≡ raised x
      → retryable x.kind ≡ true
      → IsRun left (suc done) r
      → IsRun (suc left) done (slept (base_delay * 2 ^ done) r)
  unfolding total
  slept-IsRun left done x r e h i = record {
    count = omega (arith, i.count);
    bounded = omega (arith, i.bounded);
    transient = λ k l.
        elim k as (λ k. k < suc (length r.sleeps) → IsTransient (func (done + k))) [
          | zero ↦ λ _. at_zero IsTransient done (rw e h)
          | suc j ↦ λ l. at_suc IsTransient done j (i.transient j (omega arith))
        ]
          l;
    ends =
        at_suc (λ y. Ends (suc (length r.sleeps)) (suc left) y r.outcome) done (length r.sleeps)
          (later (func (suc done + length r.sleeps)) i.ends);
    paused =
        let f : done + suc (length r.sleeps) ≡ suc done + length r.sleeps = omega arith in
        rw f (omega (arith, i.paused, doubled));
  }
    where
      doubled : base_delay * 2 ^ suc done ≡ 2 * (base_delay * 2 ^ done)
      doubled = grind (arith, pow-suc)

      later :
          (y : Result A)
          → Ends (length r.sleeps) left y r.outcome
          → Ends (suc (length r.sleeps)) (suc left) y r.outcome
      later (ok a) h = h
      later (raised e) (inl h) = inl h
      later (raised e) (inr (h, u, f)) = inr (h, omega arith, f)

  earlier-IsRun :
      (left done : ℕ) (x : Result A) (r : Run A)
      → func done ≡ x
      → IsRun left (suc done) r
      → IsRun
          (suc left)
          done
          (earlier func retryable str description base_delay attempts x (base_delay * 2 ^ done) r)
  unfolding earlier
  earlier-IsRun left done (ok a) r e i = ended-IsRun (suc left) done (ok a) (ok a) e refl
  earlier-IsRun left done (raised x) r e i = elim (Bool-cases (retryable x.kind)) [
    | inl h ↦ simp h (slept-IsRun left done x r e h i)
    | inr h ↦ simp h (ended-IsRun (suc left) done (raised x) _ e (inl (h, refl)))
  ]

  pub try_from-IsRun :
      (left done : ℕ)
      → IsRun left done (try_from func retryable str description base_delay attempts left done)
  unfolding try_from
  try_from-IsRun zero done = final-IsRun done (func done) refl
  try_from-IsRun (suc left) done =
      earlier-IsRun left done (func done) _ refl (try_from-IsRun left (suc done))

-- A call with retries always comes to an end, after one call at least and as many as asked for at
-- most, or one if fewer were asked for. Every call but the last failed with an error that is tried again; the caller gets the answer
-- of the last call, and an error that names the operation only if the attempts were used up; the
-- pauses double, so that `r` of them take `2 ^ r - 1` times the first.
pub with_retries-IsRun :
    {A : Type 0} (func : ℕ → Result A) (retryable : Kind → Bool) (str : ℕ → String)
    (description : String) (base_delay : ℕ) (attempts : ℤ)
    → IsRun func retryable str description base_delay
        (at_least_one attempts)
        (at_least_one attempts - 1)
        0
        (with_retries func retryable str description base_delay attempts)
unfolding with_retries
with_retries-IsRun func retryable str description base_delay attempts =
    try_from-IsRun func retryable str description base_delay (at_least_one attempts) _ 0
