-- ===== src/Provisioners/Trace/Keeps.antt =====
-- What a run leaves true of the trail, however it ends.
use cert_publisher.Prelude.{List, ◌∷◌, Bool, true, false, if◌then◌else◌}
use cert_publisher.Effects.{Kind, Exception, Result, ok, raised}
use cert_publisher.Provisioners.Trace.{
  Trace, pure, raise, lift, ask, finally, ensure, except, ◌>>=◌,
}
use cert_publisher.Provisioners.Trace.Triple.{
  Triple, Triple-bind, Triple-pure, Triple-raise, Triple-lift, Triple-ask, Triple-finally,
  Triple-ensure, Triple-except, Triple-map, Ended,
}

pub record Keeps {E A : Type 0} (P : List E → Type 0) (m : Trace E A) : Type 0 where
  pub run : (t : List E) → P t → Triple t m (λ a. P) (λ e. P)

module _ {E : Type 0} (P : List E → Type 0) where
  pub Keeps-bind :
      {A B : Type 0} (m : Trace E A) (f : A → Trace E B)
      → Keeps P m
      → ((a : A) → Keeps P (f a))
      → Keeps P (m >>= f)
  Keeps-bind m f h k = record {
    run = λ t p. Triple-bind _ _ _ t m f (h.run t p) (λ a u q. (k a).run u q);
  }

  module _ {A : Type 0} where
    pub Keeps-pure : (a : A) → Keeps P (pure a)
    Keeps-pure a = record { run = λ t p. Triple-pure _ _ t a p }

    pub Keeps-raise : (e : Exception) → Keeps P (raise {A = A} e)
    Keeps-raise e = record { run = λ t p. Triple-raise _ _ t e p }

    pub Keeps-lift : (r : Result A) → Keeps P (lift r)
    Keeps-lift r = record { run = λ t p. Triple-lift _ _ t r (λ a e. p) (λ x e. p) }

    pub Keeps-ask :
        (answer : List E → Result A) (entry : Result A → E)
        → ((t : List E) (r : Result A) → P t → P (entry r ∷ t))
        → Keeps P (ask answer entry)
    Keeps-ask answer entry k = record {
      run = λ t p. Triple-ask _ _ t answer entry (λ a. k t (ok a) p) (λ e. k t (raised e) p);
    }

    pub Keeps-finally :
        (entry : E) (m : Trace E A)
        → ((t : List E) → P t → P (entry ∷ t))
        → Keeps P m
        → Keeps P (finally entry m)
    Keeps-finally entry m k h = record {
      run = λ t p.
          Triple-finally _ _ t entry m (Triple-map t m (h.run t p) (λ a u. k u) (λ e u. k u));
    }

    pub Keeps-ensure :
        (close : Trace E (Unit {0})) (m : Trace E A)
        → Keeps P close
        → Keeps P m
        → Keeps P (ensure close m)
    Keeps-ensure close m k h = record {
      run = λ t p.
          Triple-ensure (λ a. P) (λ e. P) _ _ t close m (h.run t p) (λ a u. k.run u)
            (λ e u. k.run u);
    }

    pub Keeps-except :
        (p : Kind → Bool) (h m : Trace E A) → Keeps P h → Keeps P m → Keeps P (except p h m)
    Keeps-except p h m k j = record {
      run = λ t q. Triple-except _ _ t p h m (j.run t q) (λ e u r. k.run u r);
    }

    pub Keeps-if :
        (b : Bool) (m n : Trace E A) → Keeps P m → Keeps P n → Keeps P (if b then m else n)
    Keeps-if true m n j k = j
    Keeps-if false m n j k = k

    pub kept : (m : Trace E A) (t : List E) → Keeps P m → P t → P (m t).1
    kept m t h p = after (m t) (h.run t p).ended
      where
        after : (o : Result A × List E) → Ended (λ a. P) (λ e. P) o → P o.1
        after (ok a, u) q = q
        after (raised e, u) q = q

pub ruleset keeps_rules = (Keeps-bind, Keeps-pure, Keeps-raise, Keeps-lift, Keeps-except, Keeps-if)
