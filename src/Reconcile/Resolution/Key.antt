-- ===== src/Reconcile/Resolution/Key.antt =====
-- Resolving a pending request leaves the host's key alone.
use cert_publisher.Prelude.{String, Bool, true, false, Option, none, some}
use cert_publisher.Resources.{Bytes, CertificateRequest}
use cert_publisher.Effects.{World, State, imports}
use cert_publisher.Effects.Hoare.{Post-perform, called}
use cert_publisher.Certmanager.{
  RequestState, request_ready, request_pending, request_failed, certificate_request_state,
}
use cert_publisher.Reconcile.Keeps.{Stable, Keeps, keeps_rules, Keeps-pure}
use cert_publisher.Reconcile.Signing.Rounds.{Keeps-restart_signing}
use cert_publisher.Reconcile.Resolution.{
  import_unless, publish_signed, use_or_refuse, signed, answered, resolve_request,
  resolve_pending_request,
}
use cert_publisher.Reconcile.Resolution.Import.{
  Keeps-already_installed, Keeps-finish, Keeps-refuse, Keeps-still_pending,
}

-- `P` is stable, and an import does not disturb it either.
pub record StableImport (P : State → Type 0) : Type 0 where
  pub stable : Stable P
  pub imported : (cert_pem : Bytes) (b : Bool) (s : State) → P s → P (called (imports cert_pem) b s)

module _ ⦃w : World⦄ {P : State → Type 0} (si : StableImport P) where
  Keeps-import_unless :
      (installed : Bool) (cert_pem : Bytes) → Keeps P (import_unless installed cert_pem)
  unfolding import_unless
  Keeps-import_unless true cert_pem = Keeps-pure tt
  Keeps-import_unless false cert_pem = record {
    at = λ s p.
        Post-perform _ _ _ _ s (λ a _. si.imported cert_pem true s p)
          (λ e. si.imported cert_pem false s p);
  }

  Keeps-publish_signed : (name : String) (cert_pem : Bytes) → Keeps P (publish_signed name cert_pem)
  unfolding publish_signed
  Keeps-publish_signed name cert_pem =
      let st = si.stable in
      search (keeps_rules, Keeps-already_installed, Keeps-import_unless, Keeps-finish) depth 12

  Keeps-use_or_refuse :
      (name : String) (cert_pem : Bytes) (problem : Option String)
      → Keeps P (use_or_refuse name cert_pem problem)
  unfolding use_or_refuse
  Keeps-use_or_refuse name cert_pem none = Keeps-publish_signed name cert_pem
  Keeps-use_or_refuse name cert_pem (some problem) = Keeps-refuse si.stable name problem

  Keeps-answered :
      (request : CertificateRequest) (name : String) (state : RequestState) (detail : String)
      → Keeps P (answered request name state detail)
  unfolding answered signed
  Keeps-answered request name request_ready detail =
      search (keeps_rules, Keeps-use_or_refuse) depth 12
  Keeps-answered request name request_pending detail =
      Keeps-still_pending si.stable request name detail
  Keeps-answered request name request_failed detail =
      let st = si.stable in search (keeps_rules, Keeps-restart_signing) depth 12

  Keeps-resolve_request :
      (request : Option CertificateRequest) (name : String) → Keeps P (resolve_request request name)
  unfolding resolve_request
  Keeps-resolve_request none name = Keeps-restart_signing si.stable _ _
  Keeps-resolve_request (some request) name =
      let (state, detail) = certificate_request_state request in
      Keeps-answered request name state detail

  pub Keeps-resolve_pending_request : (name : String) → Keeps P (resolve_pending_request name)
  unfolding resolve_pending_request
  Keeps-resolve_pending_request name =
      let st = si.stable in search (keeps_rules, Keeps-resolve_request) depth 12
