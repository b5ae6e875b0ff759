-- ===== src/Provisioners/Dialogue/Keeps.antt =====
-- What a talk keeps of the trail: one rule for each way to build a talk.
use cert_publisher.Prelude.{ℕ, Bool, true, false, ◌∷◌, if◌then◌else◌}
use cert_publisher.Effects.{Exception, Result, ok, raised}
use cert_publisher.Provisioners.Dialogue.{
  Trail, sleeps, Outside, Line, Talk, pure, raise, lift, continue, ◌>>=◌, monotonic, uuid, sleep,
}

-- Whatever the talk comes to, it keeps `P` of the trail.
pub record Keeps (P : Trail → Type 0) {A : Type 0} (m : Talk A) : Type 0 where
  pub kept : (l : Line) → P l.trail → P (m l).1.trail

module _ (P : Trail → Type 0) where
  module _ {A B : Type 0} where
    Keeps-continue :
        (r : Result A) (f : A → Talk B) (l : Line)
        → ((a : A) → Keeps P (f a))
        → P l.trail
        → P (continue r f l).1.trail
    Keeps-continue (ok a) f l k h = (k a).kept l h
    Keeps-continue (raised e) f l k h = h

    pub Keeps-bind :
        (m : Talk A) (f : A → Talk B) → Keeps P m → ((a : A) → Keeps P (f a)) → Keeps P (m >>= f)
    unfolding ◌>>=◌
    Keeps-bind m f k j = record { kept = λ l h. Keeps-continue (m l).0 f (m l).1 j (k.kept l h) }

  module _ {A : Type 0} where
    pub Keeps-pure : (a : A) → Keeps P (pure a)
    unfolding pure
    Keeps-pure a = record { kept = λ l h. h }

    pub Keeps-raise : (e : Exception) → Keeps P (raise {A = A} e)
    unfolding raise
    Keeps-raise e = record { kept = λ l h. h }

    pub Keeps-lift : (r : Result A) → Keeps P (lift r)
    unfolding lift
    Keeps-lift r = record { kept = λ l h. h }

    pub Keeps-if : (b : Bool) (m n : Talk A) → Keeps P m → Keeps P n → Keeps P (if b then m else n)
    Keeps-if true m n k j = k
    Keeps-if false m n k j = j

  module _ ⦃o : Outside⦄ where
    pub Keeps-monotonic : Keeps P monotonic
    unfolding monotonic
    Keeps-monotonic = record { kept = λ l h. h }

    pub Keeps-uuid : Keeps P uuid
    unfolding uuid
    Keeps-uuid = record { kept = λ l h. h }

  pub Keeps-sleep : (n : ℕ) → ((t : Trail) → P t → P (sleeps n ∷ t)) → Keeps P (sleep n)
  unfolding sleep
  Keeps-sleep n s = record { kept = λ l h. s l.trail h }
