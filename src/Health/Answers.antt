-- ===== src/Health/Answers.antt =====
-- When the probes are answered with success.

use cert_publisher.Prelude.{
  ℕ, String, ◌≡◌, ◌≢◌, ◌↔◌, ◌⊎◌, refl, inl, inr, Bool, true, false, List, [], ◌∷◌, ◌==◌, All, arith,
  eq_iff, ap, Bool-cases, sym, subst,
}
use cert_publisher.Effects.{Result, ok, raised}
use cert_publisher.Health.{
  HealthServer, passes, alive, is_empty, ready, route, before_query, strip_slashes, or_root,
  respond, do_get,
}

-- Every check returned true.
abbrev pub AllPass : List (Result Bool) → Type 0
AllPass cs = All (λ c. c ≡ ok true) cs

passes-AllPass : (cs : List (Result Bool)) → passes cs ≡ true → AllPass cs
unfolding passes
passes-AllPass [] h = tt
passes-AllPass (ok true ∷ cs) h = (refl, passes-AllPass cs h)
passes-AllPass (ok false ∷ cs) h = cc
passes-AllPass (raised e ∷ cs) h = cc

value_of : Result Bool → Bool
value_of (ok b) = b
value_of (raised e) = false

AllPass-passes : (cs : List (Result Bool)) → AllPass cs → passes cs ≡ true
unfolding passes value_of
AllPass-passes [] h = refl
AllPass-passes (ok true ∷ cs) h = AllPass-passes cs h.1
AllPass-passes (ok false ∷ cs) h = ap value_of h.0
AllPass-passes (raised e ∷ cs) h = ap value_of h.0

-- Slashes, and then nothing, or a question mark and any text.
abbrev pub Trails : String → Type 0
Trails String.[] = Unit
Trails (String.◌∷◌ c s) =
    (String.◌∷◌ c String.[] ≡ "?") ⊎ ((String.◌∷◌ c String.[] ≡ "/") × Trails s)

-- A path that begins with `base` and goes on with nothing but slashes and a query.
abbrev pub Names : String → String → Type 0
Names String.[] path = Trails path
Names (String.◌∷◌ b base) String.[] = ⊥
Names (String.◌∷◌ b base) (String.◌∷◌ c path) = (b ≡ c) × Names base path

-- Success is what the probe of the process, or of its readiness, asks for.
abbrev pub Succeeds : String → HealthServer → Type 0
Succeeds path s =
    (Names "/healthz" path × AllPass s.live_checks)
    ⊎ (Names "/readyz" path × (s.ready_checks ≢ []) × AllPass s.ready_checks)

-- What the lookup keeps of a path is a beginning of it, and leaves slashes and a query.
kept_part : (path : String) → Names (strip_slashes (before_query path)) path
unfolding before_query strip_slashes
kept_part String.[] = tt
kept_part (String.◌∷◌ c s) = elim (Bool-cases (String.◌∷◌ c String.[] == "?")) [
  | inl q ↦ simp q (inl ((eq_iff (String.◌∷◌ c String.[]) "?").0 q))
  | inr q ↦ elim (Bool-cases (strip_slashes (before_query s) == "")) [
    | inl b ↦ elim (Bool-cases (String.◌∷◌ c String.[] == "/")) [
      | inl d ↦
          simp (q, b, d)
            (inr (
              (eq_iff (String.◌∷◌ c String.[]) "/").0 d,
              subst (λ k. Names k s) ((eq_iff (strip_slashes (before_query s)) "").0 b)
                  (kept_part s),
            ))
      | inr d ↦ simp (q, b, d) (refl, kept_part s)
    ]
    | inr b ↦ simp (q, b) (refl, kept_part s)
  ]
]

-- Slashes and a query are not looked up.
trailing : (rest : String) → Trails rest → strip_slashes (before_query rest) ≡ ""
unfolding before_query strip_slashes
trailing String.[] h = refl
trailing (String.◌∷◌ c s) (inl q) = simp (ap (λ x. x == "?") q) refl
trailing (String.◌∷◌ c s) (inr (d, h)) =
    simp (ap (λ x. x == "?") d, ap (λ x. x == "/") d, trailing s h) refl

Names-lem :
    (base path : String)
    → Names base path
    → strip_slashes (before_query path) ≡ strip_slashes (before_query base)
unfolding before_query strip_slashes
Names-lem String.[] path h = trailing path h
Names-lem (String.◌∷◌ b base) String.[] h = absurd h
Names-lem (String.◌∷◌ b base) (String.◌∷◌ c path) (e, h) =
    elim (Bool-cases (String.◌∷◌ b String.[] == "?")) [
      | inl q ↦ simp (sym e, q) refl
      | inr q ↦ simp (sym e, q, Names-lem base path h) refl
    ]

route_lem : (base path : String) → Names base path → route path ≡ route base
unfolding route
route_lem base path h = ap or_root (Names-lem base path h)

routed : (base path : String) → base ≢ "/" → route path ≡ base → Names base path
unfolding route or_root
routed base path n e = elim (Bool-cases (strip_slashes (before_query path) == "")) [
  | inl b ↦ absurd (n (sym (simp b at e)))
  | inr b ↦ subst (λ x. Names x path) (simp b at e) (kept_part path)
]

respond-success : (b : Bool) (otherwise : String) → (respond b otherwise).0 ≡ 200 → b ≡ true
unfolding respond
respond-success true otherwise h = refl
respond-success false otherwise h = absurd (omega (arith, h))

ready-AllPass : (s : HealthServer) → ready s ≡ true → (s.ready_checks ≢ []) × AllPass s.ready_checks
unfolding ready is_empty
ready-AllPass s h =
    (λ e. ground (arith, ap is_empty e), passes-AllPass s.ready_checks (ground arith))

nonempty : (cs : List (Result Bool)) → cs ≢ [] → is_empty cs ≡ false
unfolding is_empty
nonempty [] n = absurd (n refl)
nonempty (c ∷ cs) n = refl

do_get_lem : (path : String) (s : HealthServer) → (do_get path s).0 ≡ 200 → Succeeds path s
unfolding do_get alive
do_get_lem path s h = elim (Bool-cases (route path == "/healthz")) [
  | inl e ↦ inl (
    routed "/healthz" path (λ n. ground (arith, eq_iff "/healthz" "/", n))
        ((eq_iff (route path) "/healthz").0 e),
    passes-AllPass s.live_checks (respond-success _ "unhealthy\n" (simp e at h)),
  )
  | inr e ↦ elim (Bool-cases (route path == "/readyz")) [
    | inl f ↦
        let (n, a) = ready-AllPass s (respond-success _ "starting\n" (simp (e, f) at h)) in
        inr (
          routed "/readyz" path (λ m. ground (arith, eq_iff "/readyz" "/", m))
              ((eq_iff (route path) "/readyz").0 f),
          n,
          a,
        )
    | inr f ↦ absurd (missing (simp (e, f) at h))
  ]
]
  where
    missing : ◌≡◌ {A = ℕ} 404 200 → ⊥
    missing h = omega (arith, h)

Succeeds-do_get : (path : String) (s : HealthServer) → Succeeds path s → (do_get path s).0 ≡ 200
unfolding do_get alive ready respond route
Succeeds-do_get path s (inl (h, a)) =
    rw (route_lem "/healthz" path h) (simp (AllPass-passes s.live_checks a) refl)
Succeeds-do_get path s (inr (h, n, a)) =
    rw (route_lem "/readyz" path h)
      (simp (nonempty s.ready_checks n) (simp (AllPass-passes s.ready_checks a) refl))

-- A GET request is answered with 200 exactly if its path is `/healthz`, followed by nothing but slashes and then
-- nothing or a question mark and any text, and every liveness check returned true, or is `/readyz`, followed in the same way, there is a readiness check and
-- every one returned true; a check that raised counts as failed.
pub do_get-Succeeds :
    (path : String) (s : HealthServer) → ((do_get path s).0 ≡ 200) ↔ Succeeds path s
do_get-Succeeds path s = (do_get_lem path s, Succeeds-do_get path s)
