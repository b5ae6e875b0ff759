-- ===== src/Reconcile/Resolution/Import.antt =====
-- What is imported on the host.
use cert_publisher.Prelude.{◌≡◌, String, Bool, true, false, Option, none, some}
use cert_publisher.Resources.{Bytes, Spec, CertificateRequest}
use cert_publisher.Effects.{Exception, World, imports, State, ok}
use cert_publisher.Effects.Hoare.{
  Post, called, Post-bind, Post-perform, Post-lift, Post-get_publication,
}
use cert_publisher.Certmanager.{
  issued_certificate, RequestState, request_ready, request_pending, request_failed,
  certificate_request_state,
}
use cert_publisher.Utils.{sha256_fingerprint}
use cert_publisher.Reconcile.Keeps.{
  Stable, Keeps, keeps_rules, Keeps-pure, Keeps-bind, Keeps-get_certificate_request,
}
use cert_publisher.Reconcile.Policy.{IsSound, IsSound-Stable}
use cert_publisher.Reconcile.Renewal.{unusable_signed_certificate}
use cert_publisher.Reconcile.Renewal.Cooldown.{Keeps-time_since, Keeps-signing_cooldown_remaining}
use cert_publisher.Reconcile.Renewal.Decision.{IsUsable, unusable_signed_certificate-none}
use cert_publisher.Reconcile.Signing.Rounds.{Keeps-restart_signing, Keeps-retry_time}
use cert_publisher.Reconcile.Resolution.{
  already_installed, unanswered, expire, keep_waiting, still_pending, refuse, finish, import_unless,
  publish_signed, use_or_refuse, signed, answered, resolve_request, resolve_pending_request,
}

module _ ⦃w : World⦄ {P : State → Type 0} (st : Stable P) where
  pub Keeps-already_installed : (fingerprint : String) → Keeps P (already_installed fingerprint)
  unfolding already_installed
  Keeps-already_installed fingerprint =
      Keeps-bind _ _ (search (keeps_rules)) (λ installed. search keeps_rules)

  Keeps-unanswered : (detail : String) → Keeps P (unanswered detail)
  unfolding unanswered
  Keeps-unanswered detail = search (keeps_rules, Keeps-retry_time) depth 12

  Keeps-expire : (name detail : String) → Keeps P (expire name detail)
  unfolding expire
  Keeps-expire name detail = search (keeps_rules, Keeps-unanswered) depth 12

  Keeps-keep_waiting : (detail : String) → Keeps P (keep_waiting detail)
  unfolding keep_waiting
  Keeps-keep_waiting detail = search keeps_rules depth 12

  pub Keeps-still_pending :
      (request : CertificateRequest) (name detail : String)
      → Keeps P (still_pending request name detail)
  unfolding still_pending
  Keeps-still_pending request name detail =
      search (keeps_rules, Keeps-time_since, Keeps-expire, Keeps-keep_waiting) depth 12

  pub Keeps-refuse : (name problem : String) → Keeps P (refuse name problem)
  unfolding refuse
  Keeps-refuse name problem =
      search (keeps_rules, Keeps-retry_time, Keeps-signing_cooldown_remaining) depth 14

  pub Keeps-finish :
      (namespace name fingerprint : String) → Keeps P (finish namespace name fingerprint)
  unfolding finish
  Keeps-finish namespace name fingerprint = search keeps_rules depth 12

module _ ⦃w : World⦄ (spec : Spec) where
  abbrev Kept : {A : Type 0} → A → State → Type 0
  Kept _ t = IsSound spec t

  abbrev Sound : Exception → State → Type 0
  Sound _ t = IsSound spec t

  import_unless-IsSound :
      (installed : Bool) (cert_pem : Bytes) (s : State)
      → IsUsable spec cert_pem
      → IsSound spec s
      → Post Kept Sound (import_unless installed cert_pem s)
  unfolding import_unless
  import_unless-IsSound true cert_pem s u i = (Keeps-pure {P = IsSound spec} tt).at s i
  import_unless-IsSound false cert_pem s u i =
      Post-perform _ _ _ _ s (λ a _. imported true) (λ e. imported false)
    where
      imported : (b : Bool) → IsSound spec (called (imports cert_pem) b s)
      imported b = record { spec_eq = i.spec_eq; safe = (u, i.safe) }

  publish_signed-IsSound :
      (name : String) (cert_pem : Bytes) (s : State)
      → IsUsable spec cert_pem
      → IsSound spec s
      → Post Kept Sound (publish_signed name cert_pem s)
  unfolding publish_signed
  publish_signed-IsSound name cert_pem s u i =
      let st = IsSound-Stable spec in
      Post-get_publication _ _ _ s (
        Post-lift _ _ (sha256_fingerprint cert_pem) _ s
          (λ fingerprint _.
            Post-bind Kept _ _ _ _ s ((Keeps-already_installed st fingerprint).at s i)
              (λ installed t j.
                Post-bind Kept _ _ _ _ t (import_unless-IsSound installed cert_pem t u j)
                  (λ a t' k. (Keeps-finish st s.publication.namespace name fingerprint).at t' k)))
          (λ e. i))

  signed-IsSound :
      (request : CertificateRequest) (name : String) (s : State)
      → IsSound spec s
      → Post Kept Sound (signed request name s)
  unfolding signed use_or_refuse
  signed-IsSound request name s i = Post-get_publication _ _ _ s (
      Post-lift _ _ (issued_certificate request) _ s
        (λ cert_pem _.
          Post-lift _ _ (unusable_signed_certificate cert_pem s.publication.spec) _ s
            (λ problem e. usable cert_pem problem e) (λ e. i))
        (λ e. i))
    where
      usable :
          (cert_pem : Bytes) (problem : Option String)
          → unusable_signed_certificate cert_pem s.publication.spec ≡ ok problem
          → Post Kept Sound (use_or_refuse name cert_pem problem s)
      usable cert_pem (some problem) e = (Keeps-refuse (IsSound-Stable spec) name problem).at s i
      usable cert_pem none e =
          publish_signed-IsSound name cert_pem s
            ((unusable_signed_certificate-none cert_pem spec).0 (rw (i.spec_eq) at e)) i

  answered-IsSound :
      (request : CertificateRequest) (name : String) (state : RequestState) (detail : String)
      (s : State)
      → IsSound spec s
      → Post Kept Sound (answered request name state detail s)
  unfolding answered
  answered-IsSound request name request_ready detail s i = signed-IsSound request name s i
  answered-IsSound request name request_pending detail s i =
      (Keeps-still_pending (IsSound-Stable spec) request name detail).at s i
  answered-IsSound request name request_failed detail s i = (clears (IsSound-Stable spec)).at s i
    where
      clears :
          (st : Stable (IsSound spec))
          → Keeps (IsSound spec) (answered request name request_failed detail)
      clears st = search (keeps_rules, Keeps-restart_signing) depth 12

  resolve_request-IsSound :
      (request : Option CertificateRequest) (name : String) (s : State)
      → IsSound spec s
      → Post Kept Sound (resolve_request request name s)
  unfolding resolve_request
  resolve_request-IsSound none name s i = (Keeps-restart_signing (IsSound-Stable spec) _ _).at s i
  resolve_request-IsSound (some request) name s i =
      let (state, detail) = certificate_request_state request in
      answered-IsSound request name state detail s i

  -- Resolving a pending request, from a state in which every call so far was permitted, leaves such a
  -- state, whether it returns or raises: a certificate is imported only if it can be parsed and
  -- covers every name of the publication.
  pub resolve_pending_request-IsSound :
      (name : String) (s : State)
      → IsSound spec s
      → Post Kept Sound (resolve_pending_request name s)
  unfolding resolve_pending_request
  resolve_pending_request-IsSound name s i = Post-get_publication _ _ _ s (
      Post-bind Kept _ _ _ _ s
        ((Keeps-get_certificate_request (IsSound-Stable spec) s.publication.namespace name).at s i)
        (λ request t j. resolve_request-IsSound request name t j))
