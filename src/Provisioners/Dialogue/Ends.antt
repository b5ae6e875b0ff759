-- ===== src/Provisioners/Dialogue/Ends.antt =====
-- What holds of a value and the trail when a talk returns.
use cert_publisher.Prelude.{◌≡◌, refl, Bool, true, false, if◌then◌else◌}
use cert_publisher.Effects.{Exception, Result, ok, raised}
use cert_publisher.Provisioners.Dialogue.{Trail, Line, Talk, pure, raise, lift, continue, ◌>>=◌}

abbrev pub Returns : {A : Type 0} → (A → Trail → Type 0) → Result A × Line → Type 0
Returns Q (ok a, l) = Q a l.trail
Returns Q (raised e, l) = Unit

-- If the talk returns from this line, `Q` holds of the value and the trail.
pub record Ends {A : Type 0} (Q : A → Trail → Type 0) (m : Talk A) (l : Line) : Type 0 where
  pub ended : Returns Q (m l)

module _ {A B : Type 0} (S : A → Trail → Type 0) (Q : B → Trail → Type 0) where
  Returns-continue :
      (r : Result A) (f : A → Talk B) (l : Line)
      → Returns S (r, l)
      → ((a : A) (l' : Line) → S a l'.trail → Ends Q (f a) l')
      → Returns Q (continue r f l)
  Returns-continue (ok a) f l h k = (k a l h).ended
  Returns-continue (raised e) f l h k = tt

  pub Ends-bind :
      (m : Talk A) (f : A → Talk B) (l : Line)
      → Ends S m l
      → ((a : A) (l' : Line) → S a l'.trail → Ends Q (f a) l')
      → Ends Q (m >>= f) l
  unfolding ◌>>=◌
  Ends-bind m f l h k = record { ended = Returns-continue (m l).0 f (m l).1 h.ended k }

module _ {A : Type 0} where
  returned_any : (r : Result A × Line) → Returns (λ a t. Unit) r
  returned_any (ok a, l) = tt
  returned_any (raised e, l) = tt

  pub Ends-any : (m : Talk A) (l : Line) → Ends (λ a t. Unit) m l
  Ends-any m l = record { ended = returned_any (m l) }

module _ {A : Type 0} (Q : A → Trail → Type 0) where
  pub Ends-pure : (a : A) (l : Line) → Q a l.trail → Ends Q (pure a) l
  unfolding pure
  Ends-pure a l h = record { ended = h }

  pub Ends-raise : (e : Exception) (l : Line) → Ends Q (raise e) l
  unfolding raise
  Ends-raise e l = record { ended = tt }

  pub Ends-lift : (r : Result A) (l : Line) → ((a : A) → r ≡ ok a → Q a l.trail) → Ends Q (lift r) l
  unfolding lift
  Ends-lift (ok a) l k = record { ended = k a refl }
  Ends-lift (raised e) l k = record { ended = tt }

  pub Ends-if :
      (b : Bool) (m n : Talk A) (l : Line)
      → (b ≡ true → Ends Q m l)
      → (b ≡ false → Ends Q n l)
      → Ends Q (if b then m else n) l
  Ends-if true m n l j k = j refl
  Ends-if false m n l j k = k refl
