-- ===== src/Provisioners/Idrac8/Keeps.antt =====
-- What the steps behind the connection keep of the trail: as much as their requests keep.
use cert_publisher.Prelude.{ℕ, zero, suc, String, Option, [], ◌∷◌}
use cert_publisher.Prelude.Text.{concat}
use cert_publisher.Provisioners.Dialogue.{Trail, sleeps, Outside, Talk}
use cert_publisher.Provisioners.Dialogue.Keeps.{
  Keeps, Keeps-bind, Keeps-pure, Keeps-raise, Keeps-if, Keeps-monotonic, Keeps-sleep,
}
use cert_publisher.Provisioners.Wsman.{WsmanClient, card_service}
use cert_publisher.Provisioners.Wsman.Keeps.{Outlives, read-Keeps, invoke-Keeps}
use cert_publisher.Provisioners.Idrac8.{
  Idrac8, attribute_class, apply_poll_interval, current_value, current_subject, after_subject,
  poll_subject, apply_csr_subject, ensure_subject,
}

-- `P` outlives whatever comes before the CSR is asked for.
pub record Spares (P : Trail → Type 0) (c : WsmanClient) : Type 0 where
  pub reads : Outlives P c (concat (attribute_class ∷ " Get" ∷ []))
  pub sets : Outlives P c (concat (card_service ∷ "." ∷ "SetAttributes" ∷ []))
  pub creates : Outlives P c (concat (card_service ∷ "." ∷ "CreateTargetedConfigJob" ∷ []))
  pub rests : (n : ℕ) (t : Trail) → P t → P (sleeps n ∷ t)

module _ ⦃o : Outside⦄ (P : Trail → Type 0) (c : WsmanClient) where
  pub current_value-Keeps :
      (name : String)
      → Outlives P c (concat (attribute_class ∷ " Get" ∷ []))
      → Keeps P (current_value c name)
  unfolding current_value
  current_value-Keeps name k =
      Keeps-bind P _ _ (read-Keeps P c attribute_class _ k) (λ fields. Keeps-pure P _)

  pub current_subject-Keeps :
      Outlives P c (concat (attribute_class ∷ " Get" ∷ [])) → Keeps P (current_subject c)
  unfolding current_subject
  current_subject-Keeps k =
      Keeps-bind P _ _ (current_value-Keeps _ k)
        (λ cn. Keeps-bind P _ _ (current_value-Keeps _ k) (λ san. Keeps-pure P _))

module _ ⦃o : Outside⦄ (P : Trail → Type 0) (h : Idrac8) (c : WsmanClient) (s : Spares P c)
    (desired : String × String) where
  after_subject-Keeps :
      (deadline : ℕ) (current : String × String) (rest : Talk (Option (Unit {0})))
      → Keeps P rest
      → Keeps P (after_subject h desired deadline current rest)
  unfolding after_subject
  after_subject-Keeps deadline current rest k = Keeps-if P _ _ _ (Keeps-pure P _) (
      Keeps-bind P _ _ (Keeps-monotonic P) (λ now.
        Keeps-if P _ _ _ (Keeps-raise P _)
          (Keeps-bind P _ _ (Keeps-sleep P apply_poll_interval (s.rests _)) (λ u. k))))

  poll_subject-Keeps : (deadline fuel : ℕ) → Keeps P (poll_subject h c desired deadline fuel)
  unfolding poll_subject
  poll_subject-Keeps deadline zero = Keeps-pure P _
  poll_subject-Keeps deadline (suc fuel) =
      Keeps-bind P _ _ (current_subject-Keeps P c s.reads)
        (λ current. after_subject-Keeps deadline current _ (poll_subject-Keeps deadline fuel))

  apply_csr_subject-Keeps : (fuel : ℕ) → Keeps P (apply_csr_subject h c desired fuel)
  unfolding apply_csr_subject
  apply_csr_subject-Keeps fuel = Keeps-bind P _ _ (invoke-Keeps P c card_service _ _ s.sets) (λ a.
      Keeps-bind P _ _ (invoke-Keeps P c card_service _ _ s.creates)
        (λ b. Keeps-bind P _ _ (Keeps-monotonic P) (λ now. poll_subject-Keeps _ fuel)))

  pub ensure_subject-Keeps :
      (fuel : ℕ) (current : String × String) → Keeps P (ensure_subject h c desired fuel current)
  unfolding ensure_subject
  ensure_subject-Keeps fuel current =
      Keeps-if P _ _ _ (Keeps-pure P _) (apply_csr_subject-Keeps fuel)
