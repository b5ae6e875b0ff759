-- ===== src/Main/Examples.antt =====
-- The end of the process, on a controller with one worker that is gone.
use cert_publisher.Prelude.{ℕ, String, ◌≡◌, ◌↔◌, refl, Bool, true, false, [], ◌∷◌, All}
use cert_publisher.Effects.{ok}
use cert_publisher.Controller.Lifecycle.{Controller, create, default_config, stop}
use cert_publisher.Main.{
  Parts, main, starts_health, starts_controller, waits, stops_controller, stops_health,
}
use cert_publisher.Main.Exit.{IsProcess, main-stop}

abbrev controller : Controller
controller = record (create default_config 0) { started = true; threads = "worker-0" ∷ [] }

abbrev parts : Parts
parts = record {
  start_health = λ t. ok tt;
  start_controller = λ t. ok tt;
  wait = λ t. ok tt;
  stop_controller = λ t. ok (stop (λ x. false) controller).0.finished;
}

parts-IsProcess : IsProcess (λ x. false) controller parts
parts-IsProcess = record {
  healthy = λ t. refl;
  started = λ t. refl;
  signalled = λ t. refl;
  stopped = λ t. refl;
}

main-stop_example :
    (n : ℕ) × ((main ⦃p = parts⦄ []).0 ≡ ok n)
    × ((main ⦃p = parts⦄ []).1
        ≡ stops_health
          ∷ stops_controller (ok (stop (λ x. false) controller).0.finished)
          ∷ waits (ok tt)
          ∷ starts_controller (ok tt)
          ∷ starts_health (ok tt)
          ∷ [])
    × ((n ≡ 0) ↔ All (λ (x : String). ◌≡◌ {A = Bool} false false) ("worker-0" ∷ []))
main-stop_example = main-stop (λ x. false) controller parts refl parts-IsProcess []
