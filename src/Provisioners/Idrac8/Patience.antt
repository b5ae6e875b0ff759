-- ===== src/Provisioners/Idrac8/Patience.antt =====
-- The loop that waits for the subject ends.
use cert_publisher.Prelude.{
  ℕ, zero, suc, ◌+◌, ◌*◌, ◌≤◌, ◌≡◌, ◌≢◌, refl, sym, ap, ◌∙◌, subst, String, Bool, true, false,
  Option, none, some, List, [], ◌∷◌, ◌++◌, arith, leb, if◌then◌else◌,
}
use cert_publisher.Prelude.Keys.{Dict}
use cert_publisher.Effects.{Exception, Result, ok, raised}
use cert_publisher.Provisioners.Dialogue.{
  handshakes, posts, sleeps, Trail, slept, Outside, Line, Talk, pure, raise, lift, continue, Reply,
  ◌>>=◌, ◌>>◌, uuid, monotonic, sleep,
}
use cert_publisher.Provisioners.Wsman.{WsmanClient, post, send, read}
use cert_publisher.Provisioners.Idrac8.{
  Idrac8, current_value, current_subject, not_applied, after_subject, poll_subject,
  apply_csr_subject, apply_timeout, apply_poll_interval, ensure_subject, request_csr, csr_bytes,
  generate_csr, comma_joined,
}

-- The second line is a later one, with so much sleep between them.
pub record After (n : ℕ) (l l' : Line) : Type 0 where
  pub later : Trail
  pub trail_eq : l'.trail ≡ later ++ l.trail
  pub slept_le : n ≤ slept later
  pub readings_le : l.readings ≤ l'.readings

-- The clock never goes back, and a sleep takes at least its time.
pub record IsClock (o : Outside) : Type 0 where
  pub advances :
      (t later : Trail) (m n : ℕ)
      → m ≤ n
      → o.monotonic t m + slept later ≤ o.monotonic (later ++ t) n

pub slept-append : (t u : Trail) → slept (t ++ u) ≡ slept t + slept u
unfolding slept
slept-append [] u = omega arith
slept-append (sleeps n ∷ t) u = omega (arith, slept-append t u)
slept-append (posts p ∷ t) u = slept-append t u
slept-append (handshakes trust r ∷ t) u = slept-append t u

append_assoc : (t u v : Trail) → t ++ (u ++ v) ≡ (t ++ u) ++ v
append_assoc [] u v = refl
append_assoc (w ∷ t) u v = ap (λ x. w ∷ x) (append_assoc t u v)

After-trans : {m n : ℕ} {l l' l'' : Line} → After m l l' → After n l' l'' → After (m + n) l l''
After-trans {l = l} a b = record {
  later = b.later ++ a.later;
  trail_eq = b.trail_eq ∙ ap (λ t. b.later ++ t) a.trail_eq ∙ append_assoc b.later a.later l.trail;
  slept_le = omega (arith, slept-append b.later a.later, a.slept_le, b.slept_le);
  readings_le = omega (arith, a.readings_le, b.readings_le);
}

-- What holds of the value and the line when a talk returns.
abbrev pub Meets : {A : Type 0} → (A → Line → Type 0) → Result A × Line → Type 0
Meets Q (ok a, l) = Q a l
Meets Q (raised e, l) = Unit

record Gives {A : Type 0} (Q : A → Line → Type 0) (m : Talk A) (l : Line) : Type 0 where
  given : Meets Q (m l)

module _ {A B : Type 0} (S : A → Line → Type 0) (Q : B → Line → Type 0) where
  given_on :
      (r : Result A) (f : A → Talk B) (l : Line)
      → Meets S (r, l)
      → ((a : A) (l' : Line) → S a l' → Gives Q (f a) l')
      → Meets Q (continue r f l)
  given_on (ok a) f l h k = (k a l h).given
  given_on (raised e) f l h k = tt

  Gives-bind :
      (m : Talk A) (f : A → Talk B) (l : Line)
      → Gives S m l
      → ((a : A) (l' : Line) → S a l' → Gives Q (f a) l')
      → Gives Q (m >>= f) l
  unfolding ◌>>=◌
  Gives-bind m f l h k = record { given = given_on (m l).0 f (m l).1 h.given k }

now-After : (l : Line) → After 0 l l
now-After l = record {
  later = [];
  trail_eq = refl;
  slept_le = omega arith;
  readings_le = omega arith;
}

-- A talk that only goes on.
module _ {A : Type 0} where
  abbrev GoesOn : Line → A → Line → Type 0
  GoesOn l a l' = After 0 l l'

  Gives-pure : (Q : A → Line → Type 0) (a : A) (l : Line) → Q a l → Gives Q (pure a) l
  unfolding pure
  Gives-pure Q a l h = record { given = h }

  Gives-raise : (Q : A → Line → Type 0) (e : Exception) (l : Line) → Gives Q (raise e) l
  unfolding raise
  Gives-raise Q e l = record { given = tt }

  Gives-lift :
      (Q : A → Line → Type 0) (r : Result A) (l : Line) → ((a : A) → Q a l) → Gives Q (lift r) l
  unfolding lift
  Gives-lift Q (ok a) l h = record { given = h a }
  Gives-lift Q (raised e) l h = record { given = tt }

  Gives-if :
      (Q : A → Line → Type 0) (b : Bool) (m n : Talk A) (l : Line)
      → (b ≡ true → Gives Q m l)
      → (b ≡ false → Gives Q n l)
      → Gives Q (if b then m else n) l
  Gives-if Q true m n l j k = j refl
  Gives-if Q false m n l j k = k refl

abbrev Anything : {A : Type 0} → A → Line → Type 0
Anything a l = Unit

met_any : {A : Type 0} (r : Result A × Line) → Meets Anything r
met_any (ok a, l) = tt
met_any (raised e, l) = tt

Gives-any : {A : Type 0} (m : Talk A) (l : Line) → Gives Anything m l
Gives-any m l = record { given = met_any (m l) }

module _ ⦃o : Outside⦄ (l₀ : Line) (n : ℕ) where
  -- So much sleep lies behind the first line.
  abbrev Since : {A : Type 0} → A → Line → Type 0
  Since a l = After n l₀ l

  on : {l l' : Line} → After n l₀ l → After 0 l l' → After n l₀ l'
  on {l = l} {l' = l'} a b = subst (λ m. After m l₀ l') (omega arith) (After-trans a b)

  uuid-Gives : (l : Line) → After n l₀ l → Gives Since uuid l
  unfolding uuid
  uuid-Gives l a = record {
    given =
        on a (record {
          later = [];
          trail_eq = refl;
          slept_le = omega arith;
          readings_le = omega arith;
        });
  }

  post-Gives :
      (c : WsmanClient) (envelope what : String) (l : Line)
      → After n l₀ l
      → Gives Since (post c envelope what) l
  unfolding post
  post-Gives c envelope what l a = record { given = met (o.post l.trail c.url envelope) }
    where
      met :
          (x : Result Reply)
          → Meets Since (
            x,
            record l {
              trail =
                  posts (record {
                    pin = c.pin;
                    password = c.password;
                    what = what;
                    envelope = envelope;
                    reply = x;
                  })
                  ∷ l.trail;
            },
          )
      met (raised e) = tt
      met (ok r) = on a (record {
        later =
            posts (record {
              pin = c.pin;
              password = c.password;
              what = what;
              envelope = envelope;
              reply = ok r;
            })
            ∷ [];
        trail_eq = refl;
        slept_le = omega arith;
        readings_le = omega arith;
      })

  send-Gives :
      (c : WsmanClient) (envelope what : String) (l : Line)
      → After n l₀ l
      → Gives Since (send c envelope what) l
  unfolding send
  send-Gives c envelope what l a =
      Gives-bind Since Since _ _ l (post-Gives c envelope what l a)
        (λ r l' b. Gives-lift Since _ l' (λ e. b))

  current_value-Gives :
      (c : WsmanClient) (name : String) (l : Line)
      → After n l₀ l
      → Gives Since (current_value c name) l
  unfolding current_value read
  current_value-Gives c name l a =
      Gives-bind Since Since _ _ l
        (Gives-bind Since Since _ _ l (uuid-Gives l a) (λ id l₁ b.
          Gives-bind Since Since _ _ l₁ (send-Gives c _ _ l₁ b)
            (λ root l₂ d. Gives-pure Since _ l₂ d)))
        (λ fields l₃ e. Gives-pure Since _ l₃ e)

  current_subject-Gives :
      (c : WsmanClient) (l : Line) → After n l₀ l → Gives Since (current_subject c) l
  unfolding current_subject
  current_subject-Gives c l a =
      Gives-bind Since Since _ _ l (current_value-Gives c _ l a) (λ cn l₁ b.
        Gives-bind Since Since _ _ l₁ (current_value-Gives c _ l₁ b)
          (λ san l₂ d. Gives-pure Since _ l₂ d))

  -- A reading of the clock from here on.
  abbrev Late : ℕ → Line → Type 0
  Late now l = (o.monotonic l₀.trail l₀.readings + n ≤ now) × After n l₀ l

  monotonic-Gives : (l : Line) → IsClock o → After n l₀ l → Gives Late monotonic l
  unfolding monotonic
  monotonic-Gives l i a = record {
    given = (
      subst (λ t. o.monotonic l₀.trail l₀.readings + n ≤ o.monotonic t l.readings) (sym a.trail_eq)
          (omega
            (arith, i.advances l₀.trail a.later l₀.readings l.readings a.readings_le, a.slept_le)),
      on a (record {
        later = [];
        trail_eq = refl;
        slept_le = omega arith;
        readings_le = omega arith;
      }),
    );
  }

sleep-Gives :
    (l₀ l : Line) (n k : ℕ) → After n l₀ l → Gives (λ a l'. After (n + k) l₀ l') (sleep k) l
unfolding sleep slept
sleep-Gives l₀ l n k a = record {
  given = After-trans a (record {
    later = sleeps k ∷ [];
    trail_eq = refl;
    slept_le = omega arith;
    readings_le = omega arith;
  });
}

-- The talk does not run out of fuel.
abbrev IsFuelled : {A : Type 0} → Option A → Line → Type 0
IsFuelled a l = a ≢ none

not_none : {A : Type 0} (r : Result (Option A) × Line) → Meets IsFuelled r → r.0 ≢ ok none
not_none (ok (some a), l) m e = cc
not_none (ok none, l) m e = m refl
not_none (raised x, l) m e = cc

some_ne : {A : Type 0} (a : A) → some a ≢ none
some_ne a e = cc

module _ ⦃o : Outside⦄ (i : IsClock o) (h : Idrac8) (c : WsmanClient)
    (desired : String × String) where
  round-IsFuelled :
      (l₀ : Line) (n : ℕ) (l : Line) (rest : Talk (Option (Unit {0})))
      → After n l₀ l
      → ((now : ℕ) (l₃ : Line)
          → o.monotonic l₀.trail l₀.readings + n ≤ now
          → leb (o.monotonic l₀.trail l₀.readings + apply_timeout) now ≡ false
          → After (n + 3) l₀ l₃
          → Gives IsFuelled rest l₃)
      → Gives IsFuelled
          (current_subject c >>= λ current.
            after_subject h desired (o.monotonic l₀.trail l₀.readings + apply_timeout) current rest)
          l
  unfolding after_subject
  round-IsFuelled l₀ n l rest a k =
      Gives-bind (Since l₀ n) IsFuelled _ _ l (current_subject-Gives l₀ n c l a) (λ current l₁ a₁.
        Gives-if IsFuelled _ _ _ l₁ (λ e. Gives-pure IsFuelled _ l₁ (some_ne tt))
          (λ e. Gives-bind (Late l₀ n) IsFuelled _ _ l₁ (monotonic-Gives l₀ n l₁ i a₁) (λ now l₂ b.
            Gives-if IsFuelled (leb (o.monotonic l₀.trail l₀.readings + apply_timeout) now)
              (raise (not_applied h desired current)) (sleep apply_poll_interval >> rest) l₂
              (λ d. Gives-raise IsFuelled _ l₂)
              (λ d.
                Gives-bind (λ u l'. After (n + 3) l₀ l') IsFuelled _ _ l₂
                  (sleep-Gives l₀ l₂ n 3 b.1) (λ u l₃ b₃. k now l₃ b.0 d b₃)))))

  poll_subject-IsFuelled :
      (l₀ : Line) (k n : ℕ) (l : Line)
      → 90 ≤ n + 3 * k
      → After n l₀ l
      → Gives IsFuelled
          (poll_subject h c desired (o.monotonic l₀.trail l₀.readings + apply_timeout) (suc k))
          l
  unfolding poll_subject
  poll_subject-IsFuelled l₀ zero n l q a =
      round-IsFuelled l₀ n l _ a (λ now l₃ m d b. absurd (ground arith))
  poll_subject-IsFuelled l₀ (suc k) n l q a =
      round-IsFuelled l₀ n l (poll_subject h c desired _ (suc k)) a
        (λ now l₃ m d b. poll_subject-IsFuelled l₀ k (n + 3) l₃ (omega arith) b)

  Starts : Line → ℕ → Line → Type 0
  Starts l now l' = (now ≡ o.monotonic l.trail l.readings) × After 0 l l'

  monotonic-Starts : (l : Line) → Gives (Starts l) monotonic l
  unfolding monotonic Starts
  monotonic-Starts l = record {
    given = (
      refl,
      record { later = []; trail_eq = refl; slept_le = omega arith; readings_le = omega arith },
    );
  }

  -- 31 rounds of the loop are enough, whatever comes before.
  apply_csr_subject-IsFuelled : (l : Line) → Gives IsFuelled (apply_csr_subject h c desired 31) l
  unfolding apply_csr_subject Starts
  apply_csr_subject-IsFuelled l = Gives-bind Anything IsFuelled _ _ l (Gives-any _ l) (λ a l₁ u.
      Gives-bind Anything IsFuelled _ _ l₁ (Gives-any _ l₁) (λ b l₂ v.
        Gives-bind (Starts l₂) IsFuelled _ _ l₂ (monotonic-Starts l₂) (λ now l₃ s.
          subst (λ m. Gives IsFuelled (poll_subject h c desired (m + apply_timeout) 31) l₃)
            (sym s.0) (poll_subject-IsFuelled l₂ 30 0 l₃ (omega arith) s.1))))

  ensure_subject-IsFuelled :
      (current : String × String) (l : Line)
      → Gives IsFuelled (ensure_subject h c desired 31 current) l
  unfolding ensure_subject
  ensure_subject-IsFuelled current l =
      Gives-if IsFuelled _ _ _ l (λ e. Gives-pure IsFuelled _ l (some_ne tt))
        (λ e. apply_csr_subject-IsFuelled l)

  request_csr-IsFuelled :
      (u : Option (Unit {0})) (l : Line) → u ≢ none → Gives IsFuelled (request_csr h c u) l
  unfolding request_csr
  request_csr-IsFuelled none l n = absurd (n refl)
  request_csr-IsFuelled (some u) l n =
      Gives-bind Anything IsFuelled _ _ l (Gives-any _ l)
        (λ output l' v. Gives-pure IsFuelled _ l' (some_ne output))

module _ ⦃o : Outside⦄ (h : Idrac8) where
  csr_bytes-IsFuelled :
      (output : Option (Dict String)) (l : Line)
      → output ≢ none
      → Gives IsFuelled (lift (csr_bytes h output)) l
  unfolding csr_bytes lift
  csr_bytes-IsFuelled none l n = absurd (n refl)
  csr_bytes-IsFuelled (some output) l n = record { given = ground arith }

  generate_csr-IsFuelled :
      (common_name : String) (dns_names : List String) (l : Line)
      → IsClock o
      → Gives IsFuelled (generate_csr h common_name dns_names 31) l
  unfolding generate_csr
  generate_csr-IsFuelled common_name dns_names l i =
      let d : String × String = (common_name, comma_joined dns_names) in
      Gives-bind Anything IsFuelled _ _ l (Gives-any _ l) (λ c l₁ u.
        Gives-bind Anything IsFuelled _ _ l₁ (Gives-any _ l₁) (λ current l₂ v.
          Gives-bind IsFuelled IsFuelled _ _ l₂ (ensure_subject-IsFuelled i h c d current l₂)
            (λ applied l₃ n.
              Gives-bind IsFuelled IsFuelled _ _ l₃ (request_csr-IsFuelled i h c d applied l₃ n)
                (λ output l₄ m. csr_bytes-IsFuelled output l₄ m))))

  -- The loop of `generate_csr` ends: on a clock that never goes back and that every sleep moves by
  -- its time at least, 31 rounds are enough fuel, however the host answers. The call returns a CSR
  -- or raises, and does not run out.
  pub generate_csr-ends :
      (common_name : String) (dns_names : List String) (l : Line)
      → IsClock o
      → (generate_csr h common_name dns_names 31 l).0 ≢ ok none
  generate_csr-ends common_name dns_names l i =
      not_none (generate_csr h common_name dns_names 31 l)
        (generate_csr-IsFuelled common_name dns_names l i).given
