-- ===== src/Provisioners/Trace/Triple.antt =====
-- What holds of the trail, and of the value or the exception, when a run from a trail has ended.
use cert_publisher.Prelude.{
  ◌≡◌, refl, List, ◌∷◌, Bool, true, false, if◌then◌else◌, Bool-cases, inl, inr,
}
use cert_publisher.Effects.{Kind, Exception, Result, ok, raised}
use cert_publisher.Provisioners.Trace.{
  Trace, pure, raise, lift, ask, finally, settled, ensure, recover, except, continue, ◌>>=◌,
}

abbrev pub Ended :
    {E A : Type 0}
    → (A → List E → Type 0)
    → (Exception → List E → Type 0)
    → Result A × List E
    → Type 0
Ended Q R (ok a, t) = Q a t
Ended Q R (raised e, t) = R e t

-- From the trail `t`: `Q` of the value and the trail if the run returns, `R` of the exception and the trail if it raises.
pub record Triple {E A : Type 0} (t : List E) (m : Trace E A) (Q : A → List E → Type 0)
    (R : Exception → List E → Type 0) : Type 0 where
  pub ended : Ended Q R (m t)

module _ {E A B : Type 0} (S : A → List E → Type 0) (Q : B → List E → Type 0)
    (R : Exception → List E → Type 0) where
  Ended-continue :
      (r : Result A) (f : A → Trace E B) (t : List E)
      → Ended S R (r, t)
      → ((a : A) (u : List E) → S a u → Triple u (f a) Q R)
      → Ended Q R (continue r f t)
  Ended-continue (ok a) f t h k = (k a t h).ended
  Ended-continue (raised e) f t h k = h

  pub Triple-bind :
      (t : List E) (m : Trace E A) (f : A → Trace E B)
      → Triple t m S R
      → ((a : A) (u : List E) → S a u → Triple u (f a) Q R)
      → Triple t (m >>= f) Q R
  unfolding ◌>>=◌
  Triple-bind t m f h k = record { ended = Ended-continue (m t).0 f (m t).1 h.ended k }

module _ {E A : Type 0} (Q : A → List E → Type 0) (R : Exception → List E → Type 0) where
  pub Triple-pure : (t : List E) (a : A) → Q a t → Triple t (pure a) Q R
  unfolding pure
  Triple-pure t a h = record { ended = h }

  pub Triple-raise : (t : List E) (e : Exception) → R e t → Triple t (raise e) Q R
  unfolding raise
  Triple-raise t e h = record { ended = h }

  pub Triple-lift :
      (t : List E) (r : Result A)
      → ((a : A) → r ≡ ok a → Q a t)
      → ((e : Exception) → r ≡ raised e → R e t)
      → Triple t (lift r) Q R
  unfolding lift
  Triple-lift t (ok a) k j = record { ended = k a refl }
  Triple-lift t (raised e) k j = record { ended = j e refl }

  ask_ended :
      (entry : Result A → E) (t : List E) (r : Result A)
      → ((a : A) → Q a (entry (ok a) ∷ t))
      → ((e : Exception) → R e (entry (raised e) ∷ t))
      → Ended Q R (r, entry r ∷ t)
  ask_ended entry t (ok a) k j = k a
  ask_ended entry t (raised e) k j = j e

  pub Triple-ask :
      (t : List E) (answer : List E → Result A) (entry : Result A → E)
      → ((a : A) → Q a (entry (ok a) ∷ t))
      → ((e : Exception) → R e (entry (raised e) ∷ t))
      → Triple t (ask answer entry) Q R
  unfolding ask
  Triple-ask t answer entry k j = record { ended = ask_ended entry t (answer t) k j }

  answer_ended :
      (entry : Result A → E) (t : List E) (r : Result A)
      → ((a : A) → r ≡ ok a → Q a (entry (ok a) ∷ t))
      → ((e : Exception) → r ≡ raised e → R e (entry (raised e) ∷ t))
      → Ended Q R (r, entry r ∷ t)
  answer_ended entry t (ok a) k j = k a refl
  answer_ended entry t (raised e) k j = j e refl

  -- The same, where the answer matters.
  pub Triple-answer :
      (t : List E) (answer : List E → Result A) (entry : Result A → E)
      → ((a : A) → answer t ≡ ok a → Q a (entry (ok a) ∷ t))
      → ((e : Exception) → answer t ≡ raised e → R e (entry (raised e) ∷ t))
      → Triple t (ask answer entry) Q R
  unfolding ask
  Triple-answer t answer entry k j = record { ended = answer_ended entry t (answer t) k j }

  finally_ended :
      (entry : E) (r : Result A) (t : List E)
      → Ended (λ a u. Q a (entry ∷ u)) (λ e u. R e (entry ∷ u)) (r, t)
      → Ended Q R (r, entry ∷ t)
  finally_ended entry (ok a) t h = h
  finally_ended entry (raised e) t h = h

  pub Triple-finally :
      (t : List E) (entry : E) (m : Trace E A)
      → Triple t m (λ a u. Q a (entry ∷ u)) (λ e u. R e (entry ∷ u))
      → Triple t (finally entry m) Q R
  unfolding finally
  Triple-finally t entry m h = record { ended = finally_ended entry (m t).0 (m t).1 h.ended }

  recover_ended :
      (p : Kind → Bool) (r : Result A) (h : Trace E A) (t : List E)
      → Ended Q R (r, t)
      → ((e : Exception) (u : List E) → R e u → Triple u h Q R)
      → Ended Q R (recover p r h t)
  recover_ended p (ok a) h t j k = j
  recover_ended p (raised e) h t j k = elim (Bool-cases (p e.kind)) [
    | inl b ↦ simp b ((k e t j).ended)
    | inr b ↦ simp b j
  ]

  pub Triple-except :
      (t : List E) (p : Kind → Bool) (h m : Trace E A)
      → Triple t m Q R
      → ((e : Exception) (u : List E) → R e u → Triple u h Q R)
      → Triple t (except p h m) Q R
  unfolding except
  Triple-except t p h m j k = record { ended = recover_ended p (m t).0 h (m t).1 j.ended k }

  pub Triple-if :
      (t : List E) (b : Bool) (m n : Trace E A)
      → (b ≡ true → Triple t m Q R)
      → (b ≡ false → Triple t n Q R)
      → Triple t (if b then m else n) Q R
  Triple-if t true m n j k = j refl
  Triple-if t false m n j k = k refl

-- The clean-up is run from what the body leaves, and its own exception goes first.
module _ {E A : Type 0} (S : A → List E → Type 0) (T : Exception → List E → Type 0)
    (Q : A → List E → Type 0) (R : Exception → List E → Type 0) where
  ensured :
      (close : Trace E (Unit {0})) (o : Result A × List E)
      → Ended S T o
      → ((a : A) (u : List E) → S a u → Triple u close (λ x. Q a) R)
      → ((e : Exception) (u : List E) → T e u → Triple u close (λ x. R e) R)
      → Ended Q R (let (c, v) = close o.1 in (settled c o.0, v))
  ensured close (ok a, u) h k j = over_ok (close u) (k a u h).ended
    where
      over_ok :
          (p : Result (Unit {0}) × List E)
          → Ended (λ x. Q a) R p
          → Ended Q R (settled p.0 (ok a), p.1)
      over_ok (ok x, v) q = q
      over_ok (raised x, v) q = q
  ensured close (raised e, u) h k j = over_raised (close u) (j e u h).ended
    where
      over_raised :
          (p : Result (Unit {0}) × List E)
          → Ended (λ x. R e) R p
          → Ended Q R (settled {A = A} p.0 (raised e), p.1)
      over_raised (ok x, v) q = q
      over_raised (raised x, v) q = q

  pub Triple-ensure :
      (t : List E) (close : Trace E (Unit {0})) (m : Trace E A)
      → Triple t m S T
      → ((a : A) (u : List E) → S a u → Triple u close (λ x. Q a) R)
      → ((e : Exception) (u : List E) → T e u → Triple u close (λ x. R e) R)
      → Triple t (ensure close m) Q R
  unfolding ensure
  Triple-ensure t close m h k j = record { ended = ensured close (m t) h.ended k j }

module _ {E A : Type 0} {Q Q' : A → List E → Type 0} {R R' : Exception → List E → Type 0} where
  Ended-map :
      (o : Result A × List E)
      → Ended Q' R' o
      → ((a : A) (u : List E) → Q' a u → Q a u)
      → ((e : Exception) (u : List E) → R' e u → R e u)
      → Ended Q R o
  Ended-map (ok a, u) h k j = k a u h
  Ended-map (raised e, u) h k j = j e u h

  pub Triple-map :
      (t : List E) (m : Trace E A)
      → Triple t m Q' R'
      → ((a : A) (u : List E) → Q' a u → Q a u)
      → ((e : Exception) (u : List E) → R' e u → R e u)
      → Triple t m Q R
  Triple-map t m h k j = record { ended = Ended-map (m t) h.ended k j }

module _ {E A : Type 0} where
  ended_any : (o : Result A × List E) → Ended (λ a u. Unit) (λ e u. Unit) o
  ended_any (ok a, u) = tt
  ended_any (raised e, u) = tt

  pub Triple-any : (t : List E) (m : Trace E A) → Triple t m (λ a u. Unit) (λ e u. Unit)
  Triple-any t m = record { ended = ended_any (m t) }
