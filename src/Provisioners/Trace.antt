-- ===== src/Provisioners/Trace.antt =====
-- What a provisioner asks of libraries and of its target host, in the order in which it asks. The
-- outside answers by the trail of what was asked before. `E` is the type of the trail's entries.
pub mod Triple
pub mod Keeps
use cert_publisher.Prelude.{List, ◌∷◌, Bool, if◌then◌else◌}
use cert_publisher.Effects.{Kind, Exception, Result, ok, raised}

-- The last entry of a trail comes first.
abbrev pub Trace : Type 0 → Type 0 → Type 0
Trace E A = List E → Result A × List E

-- What is left of an outcome when a clean-up has ended: its exception goes first.
abbrev pub settled : {A : Type 0} → Result (Unit {0}) → Result A → Result A
settled (ok u) r = r
settled (raised e) r = raised e

module _ {E A : Type 0} where
  unfoldable pub pure : A → Trace E A
  pure a t = (ok a, t)

  unfoldable pub raise : Exception → Trace E A
  raise e t = (raised e, t)

  -- A computation that asks nothing of the outside.
  unfoldable pub lift : Result A → Trace E A
  lift r t = (r, t)

  -- One question: how the outside answers it, and the entry that it leaves.
  unfoldable pub ask : (List E → Result A) → (Result A → E) → Trace E A
  ask answer entry t = let r = answer t in (r, entry r ∷ t)

  -- `finally`, for a clean-up that raises nothing.
  unfoldable pub finally : E → Trace E A → Trace E A
  finally entry m t = let (r, u) = m t in (r, entry ∷ u)

  -- `finally`, or the end of a `with`, for a clean-up that may raise.
  unfoldable pub ensure : Trace E (Unit {0}) → Trace E A → Trace E A
  ensure close m t = let (r, u) = m t in let (c, v) = close u in (settled c r, v)

  abbrev pub recover : (Kind → Bool) → Result A → Trace E A → Trace E A
  recover p (ok a) h t = (ok a, t)
  recover p (raised e) h t = if p e.kind then h t else (raised e, t)

  -- `try` with one `except`, for the exceptions of some classes.
  unfoldable pub except : (Kind → Bool) → Trace E A → Trace E A → Trace E A
  except p h m t = let (r, u) = m t in recover p r h u

module _ {E A B : Type 0} where
  abbrev pub continue : Result A → (A → Trace E B) → Trace E B
  continue (ok a) f t = f a t
  continue (raised e) f t = (raised e, t)

  infixl 5 ◌>>=◌ ◌>>◌
  unfoldable pub ◌>>=◌ : Trace E A → (A → Trace E B) → Trace E B
  ◌>>=◌ m f t = let (r, u) = m t in continue r f u

  abbrev pub ◌>>◌ : Trace E A → Trace E B → Trace E B
  m >> n = m >>= λ _. n
