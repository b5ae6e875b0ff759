-- ===== src/Controller/Lifecycle/Drained.antt =====
-- When a shutdown has drained.
use cert_publisher.Prelude.{
  String, Bool, true, false, ◌≡◌, ◌↔◌, refl, List, [], ◌∷◌, All, Bool-cases, inl, inr,
}
use cert_publisher.Controller.Lifecycle.{Controller, stop, still_running, is_empty}

none_running :
    (is_alive : String → Bool) (ts : List String)
    → (is_empty (still_running is_alive ts) ≡ true) ↔ All (λ t. is_alive t ≡ false) ts
unfolding is_empty still_running
none_running is_alive [] = ((λ h. tt), (λ h. refl))
none_running is_alive (t ∷ ts) = elim (Bool-cases (is_alive t)) [
  | inl e ↦ simp e ((λ h. cc), (λ h. cc))
  | inr e ↦
      simp e
        ((λ h. (refl, (none_running is_alive ts).0 h)), (λ h. (none_running is_alive ts).1 h.1))
]

-- A controller that was started has drained when no worker's thread is alive any more.
pub stop-finished :
    (is_alive : String → Bool) (c : Controller)
    → c.started ≡ true
    → ((stop is_alive c).0.finished ≡ true) ↔ All (λ t. is_alive t ≡ false) c.threads
unfolding stop
stop-finished is_alive c s = simp s (none_running is_alive c.threads)
