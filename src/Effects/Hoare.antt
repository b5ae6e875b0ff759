-- ===== src/Effects/Hoare.antt =====
-- What holds when an action has run: one rule for each way to build an action.
use cert_publisher.Prelude.{◌≡◌, refl, Bool, true, false, ◌∷◌, if◌then◌else◌}
use cert_publisher.Resources.{Publication}
use cert_publisher.Effects.{
  get_publication, Exception, Result, ok, raised, Call, History, State, Action, lift, perform,
  returned, ◌>>=◌, continue, recover, try_except, recover_value_error, except_value_error,
  is_value_error,
}

-- `Q` of the value and the state if the action returned, `R` of the exception and the state if it
-- raised one.
abbrev pub Post :
    {A : Type 0} → (A → State → Type 0) → (Exception → State → Type 0) → Result A × State → Type 0
Post Q R (ok a, s) = Q a s
Post Q R (raised e, s) = R e s

-- The state after a call.
abbrev pub called : Call → Bool → State → State
called c b s = record s { history = record { call = c; succeeded = b } ∷ s.history }

module _ {A B : Type 0} (S : A → State → Type 0) (Q : B → State → Type 0)
    (R : Exception → State → Type 0) where
  Post-continue :
      (r : Result A) (f : A → Action B) (s : State)
      → Post S R (r, s)
      → ((a : A) (t : State) → S a t → Post Q R (f a t))
      → Post Q R (continue r f s)
  Post-continue (ok a) f s h k = k a s h
  Post-continue (raised e) f s h k = h

  pub Post-bind :
      (m : Action A) (f : A → Action B) (s : State)
      → Post S R (m s)
      → ((a : A) (t : State) → S a t → Post Q R (f a t))
      → Post Q R ((m >>= f) s)
  unfolding ◌>>=◌
  Post-bind m f s h k = let (r, t) = m s in Post-continue r f t h k

module _ {A : Type 0} (Q : A → State → Type 0) (R : Exception → State → Type 0) where
  pub Post-perform :
      (c : Call) (answer : History → Result A) (s : State)
      → ((a : A) → answer s.history ≡ ok a → Q a (called c true s))
      → ((e : Exception) → R e (called c false s))
      → Post Q R (perform c answer s)
  unfolding perform
  Post-perform c answer s q r = split (answer s.history) refl
    where
      split : (x : Result A) → answer s.history ≡ x → Post Q R (x, called c (returned x) s)
      split (ok a) e = q a e
      split (raised e) _ = r e

  pub Post-map :
      {Q' : A → State → Type 0} {R' : Exception → State → Type 0} (o : Result A × State)
      → Post Q' R' o
      → ((a : A) (s : State) → Q' a s → Q a s)
      → ((e : Exception) (s : State) → R' e s → R e s)
      → Post Q R o
  Post-map (ok a, s) h q r = q a s h
  Post-map (raised e, s) h q r = r e s h

  Post-recover :
      (S : Exception → State → Type 0) (x : Result A) (h : Exception → Action A) (s : State)
      → Post Q S (x, s)
      → ((e : Exception) (t : State) → S e t → Post Q R (h e t))
      → Post Q R (recover x h s)
  Post-recover S (ok a) h s p k = p
  Post-recover S (raised e) h s p k = k e s p

  pub Post-try_except :
      (S : Exception → State → Type 0) (m : Action A) (h : Exception → Action A) (s : State)
      → Post Q S (m s)
      → ((e : Exception) (t : State) → S e t → Post Q R (h e t))
      → Post Q R (try_except m h s)
  unfolding try_except
  Post-try_except S m h s p k = let (x, t) = m s in Post-recover S x h t p k

  Post-recover_value_error :
      (x : Result A) (h : Action A) (s : State)
      → Post Q R (x, s)
      → ((e : Exception) (t : State) → R e t → Post Q R (h t))
      → Post Q R (recover_value_error x h s)
  Post-recover_value_error (ok a) h s p k = p
  Post-recover_value_error (raised e) h s p k =
      elim (is_value_error e.kind) as (λ b. Post Q R (if b then h s else (raised e, s))) [
        | true ↦ k e s p
        | false ↦ p
      ]

  pub Post-except_value_error :
      (m : Action A) (h : Action A) (s : State)
      → Post Q R (m s)
      → ((e : Exception) (t : State) → R e t → Post Q R (h t))
      → Post Q R (except_value_error m h s)
  unfolding except_value_error
  Post-except_value_error m h s p k = let (x, t) = m s in Post-recover_value_error x h t p k

module _ {A B : Type 0} (Q : B → State → Type 0) (R : Exception → State → Type 0) where
  pub Post-lift :
      (r : Result A) (f : A → Action B) (s : State)
      → ((a : A) → r ≡ ok a → Post Q R (f a s))
      → ((e : Exception) → R e s)
      → Post Q R ((lift r >>= f) s)
  unfolding lift ◌>>=◌
  Post-lift (ok a) f s h k = h a refl
  Post-lift (raised e) f s h k = k e

module _ {B : Type 0} (Q : B → State → Type 0) (R : Exception → State → Type 0) where
  pub Post-get_publication :
      (f : Publication → Action B) (s : State)
      → Post Q R (f s.publication s)
      → Post Q R ((get_publication >>= f) s)
  unfolding get_publication ◌>>=◌
  Post-get_publication f s h = h
