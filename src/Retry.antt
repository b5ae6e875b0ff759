-- ===== src/Retry.antt =====
-- src/cert_publisher/retry.py: a call that is tried again after a transient failure. Delays are whole
-- numbers of units of time. The texts of the environment and their reading by `int` and `float` are
-- arguments.
pub mod Attempts
mod Examples
use cert_publisher.Prelude.{
  ℕ, zero, suc, ◌-◌, ◌*◌, ◌^◌, String, Bool, true, false, Option, none, some, List, [], ◌∷◌,
  if◌then◌else◌,
}
use cert_publisher.Prelude.Int.{ℤ, pos, pos_part}
use cert_publisher.Prelude.Text.{concat}
use cert_publisher.Effects.{Kind, os_error, Exception, Result, ok, raised}

-- DEFAULT_RETRYABLE: `isinstance(exc, OSError)`
unfoldable pub default_retryable : Kind → Bool
default_retryable os_error = true
default_retryable _ = false

-- `_int_env` and `_float_env`: the variable, what reads it, and the default.
pub env_or : {A : Type 0} → Option String → (String → Option A) → A → A
env_or none read default = default
env_or (some text) read default = elim (read text) [ none ↦ default | some a ↦ a ]

-- How a call with its retries went: what the caller gets, the pauses in their order, and how often
-- the function was called.
pub record Run (A : Type 0) : Type 0 where
  pub outcome : Result A
  pub sleeps : List ℕ
  pub calls : ℕ

module _ {A : Type 0} where
  abbrev pub slept : ℕ → Run A → Run A
  slept delay r = record { outcome = r.outcome; sleeps = delay ∷ r.sleeps; calls = suc r.calls }

  abbrev pub ended : Result A → Run A
  ended r = record { outcome = r; sleeps = []; calls = 1 }

-- `func` answers its calls by their number, from 0. `str` prints a number.
module _ {A : Type 0} (func : ℕ → Result A) (retryable : Kind → Bool) (str : ℕ → String)
    (description : String) (base_delay : ℕ) (attempts : ℕ) where
  unfoldable pub exhausted : Exception → Exception
  exhausted e = record {
    kind = os_error;
    text = concat (description ∷ " failed after " ∷ str attempts ∷ " attempt(s): " ∷ e.text ∷ []);
  }

  -- The last attempt.
  unfoldable pub final : Result A → Run A
  unfolding exhausted
  final (ok a) = ended (ok a)
  final (raised e) = if retryable e.kind then ended (raised (exhausted e)) else ended (raised e)

  -- An earlier attempt, with its pause and the run of the attempts behind it.
  unfoldable pub earlier : Result A → ℕ → Run A → Run A
  earlier (ok a) delay rest = ended (ok a)
  earlier (raised e) delay rest = if retryable e.kind then slept delay rest else ended (raised e)

  -- The loop, with the number of attempts behind this one, and of those before it.
  unfoldable pub try_from : ℕ → ℕ → Run A
  unfolding final earlier
  try_from zero done = final (func done)
  try_from (suc left) done = earlier (func done) (base_delay * 2 ^ done) (try_from left (suc done))

-- `max(1, attempts)`
unfoldable pub at_least_one : ℤ → ℕ
at_least_one n = elim (pos_part n) [ zero ↦ 1 | suc m ↦ suc m ]

unfoldable pub with_retries :
    {A : Type 0} → (ℕ → Result A) → (Kind → Bool) → (ℕ → String) → String → ℕ → ℤ → Run A
unfolding try_from at_least_one
with_retries func retryable str description base_delay attempts =
    try_from func retryable str description base_delay (at_least_one attempts)
      (at_least_one attempts - 1) 0
