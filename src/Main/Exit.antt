-- ===== src/Main/Exit.antt =====
-- How the process ends, and what it runs with if the environment says nothing.
use cert_publisher.Prelude.{
  ℕ, String, Bool, true, false, none, ◌≡◌, ◌↔◌, ◌⊎◌, inl, inr, refl, List, ◌∷◌, All, arith,
}
use cert_publisher.Prelude.Int.{pos}
use cert_publisher.Effects.{Exception, ok, raised}
use cert_publisher.Retry.{at_least_one}
use cert_publisher.Provisioners.Trace.{pure, ask, finally, ◌>>=◌}
use cert_publisher.Provisioners.Trace.Triple.{
  Triple, Triple-bind, Triple-pure, Triple-ask, Triple-finally,
}
use cert_publisher.Controller.Lifecycle.Drained.{stop-finished}
use cert_publisher.Controller.Lifecycle.{Controller, default_config, stop}
use cert_publisher.Main.{
  Environment, from_env, env_float, env_int, read_or, truthy, shutdown_code, Step, starts_health,
  starts_controller, waits, stops_controller, stops_health, Parts, serve, main,
}

-- If the environment sets none of the variables, the controller runs with its own defaults, and the probes are answered on port 8080.
pub from_env-default :
    (e : Environment)
    → ((name : String) → e.get name ≡ none)
    → from_env e ≡ record { controller = default_config; health_port = pos 8080 }
unfolding from_env env_float env_int read_or truthy at_least_one
from_env-default e h =
    simp
      (
        h "WATCH_NAMESPACE",
        h "WORKER_COUNT",
        h "RESYNC_INTERVAL",
        h "RESYNC_JITTER",
        h "BACKOFF_BASE",
        h "BACKOFF_MAX",
        h "STARTUP_SPREAD",
        h "WATCH_TIMEOUT",
        h "SHUTDOWN_TIMEOUT",
        h "RECONCILE_TIMEOUT",
        h "HEALTH_PORT",
      )
      refl

code-lem : (d : Bool) → (shutdown_code d ≡ 0) ↔ (d ≡ true)
unfolding shutdown_code
code-lem true = ((λ h. refl), (λ h. refl))
code-lem false = ((λ h. absurd (ground arith)), (λ h. cc))

module _ ⦃p : Parts⦄ where
  -- The run has stopped the health server, or could not start it.
  abbrev IsStopped : List Step → List Step → Type 0
  IsStopped t u =
      ((e : Exception) × (u ≡ starts_health (raised e) ∷ t))
      ⊎ ((v : List Step) × (u ≡ stops_health ∷ v))

  -- `main` returns only after the signal and the stop of the controller, with the code of its answer, and whether it returns or raises it stops the health server
  -- if it started it.
  pub main_lem :
      (t : List Step)
      → Triple t main
          (λ n u.
            (d : Bool) × (n ≡ shutdown_code d)
            × (u
                ≡ stops_health
                  ∷ stops_controller (ok d)
                  ∷ waits (ok tt)
                  ∷ starts_controller (ok tt)
                  ∷ starts_health (ok tt)
                  ∷ t))
          (λ e. IsStopped t)
  unfolding main serve
  main_lem t =
      Triple-bind (λ a u. u ≡ starts_health (ok tt) ∷ t) _ _ t _ _
        (Triple-ask _ _ t _ _ (λ a. refl) (λ e. inl (e, refl)))
        (λ a u1 e1. Triple-finally _ _ u1 stops_health _ (
          Triple-bind (λ b u. u ≡ starts_controller (ok tt) ∷ u1) _ _ u1 _ _
            (Triple-ask _ _ u1 _ _ (λ b. refl) (λ e. inr (_, refl)))
            (λ b u2 e2.
              Triple-bind (λ b u. u ≡ waits (ok tt) ∷ u2) _ _ u2 _ _
                (Triple-ask _ _ u2 _ _ (λ b. refl) (λ e. inr (_, refl)))
                (λ b u3 e3.
                  Triple-bind (λ d u. u ≡ stops_controller (ok d) ∷ u3) _ _ u3 _ _
                    (Triple-ask _ _ u3 _ _ (λ b. refl) (λ e. inr (_, refl)))
                    (λ d u4 e4. Triple-pure _ _ u4 _ (d, refl, rw (e4, e3, e2, e1) refl))))))

-- The process over the controller `c`, whose threads are alive or not at its end as `is_alive` says.
pub record IsProcess (is_alive : String → Bool) (c : Controller) (p : Parts) : Type 0 where
  pub healthy : (t : List Step) → p.start_health t ≡ ok tt
  pub started : (t : List Step) → p.start_controller t ≡ ok tt
  pub signalled : (t : List Step) → p.wait t ≡ ok tt
  pub stopped : (t : List Step) → p.stop_controller t ≡ ok (stop is_alive c).0.finished

-- If the health server and the controller start and the wait for the signal ends, `main` returns: it has started the health server and the controller, waited,
-- stopped the controller and then the health server, and its exit code is 0 exactly if none of the worker threads of the controller is alive when
-- the controller has waited for them.
pub main-stop :
    (is_alive : String → Bool) (c : Controller) (p : Parts)
    → c.started ≡ true
    → IsProcess is_alive c p
    → (t : List Step)
    → (n : ℕ) × ((main ⦃p = p⦄ t).0 ≡ ok n)
      × ((main ⦃p = p⦄ t).1
          ≡ stops_health
            ∷ stops_controller (ok (stop is_alive c).0.finished)
            ∷ waits (ok tt)
            ∷ starts_controller (ok tt)
            ∷ starts_health (ok tt)
            ∷ t)
      × ((n ≡ 0) ↔ All (λ x. is_alive x ≡ false) c.threads)
unfolding main serve ask finally ◌>>=◌ pure
main-stop is_alive c p s i t =
    let d = (stop is_alive c).0.finished in
    let a = code-lem d in
    let b = stop-finished is_alive c s in
    (
      shutdown_code d,
      simp (i.healthy t, i.started _, i.signalled _, i.stopped _) refl,
      simp (i.healthy t, i.started _, i.signalled _, i.stopped _) refl,
      ((λ h. b.0 (a.0 h)), (λ h. a.1 (b.1 h))),
    )
