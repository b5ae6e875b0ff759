-- ===== src/Kube.antt =====
-- src/cert_publisher/kube.py: the calls of the API server, with the HTTP statuses that each treats
-- as an answer.
use cert_publisher.Prelude.{
  [], ◌∷◌, ℕ, String, Bool, false, Option, none, some, nat_eq, if◌then◌else◌,
}
use cert_publisher.Prelude.Keys.{Dict}
use cert_publisher.Prelude.Text.{truncate}
use cert_publisher.Json.{Fields}
use cert_publisher.Resources.{
  Bytes, Publication, ManagedCertificate, CertificateRequest, Secret, StatusPatch,
}
use cert_publisher.Effects.{
  reads_publication, Result, ok, raised, History, returned, Kind, api_exception, World, Body,
  reads_certificate, creates_certificate, patches_certificate, reads_request, creates_request,
  deletes_request, patches_status, reads_secret, posts_event, Action, pure, raise, perform,
  try_except, ◌>>=◌, ◌>>◌,
}
use cert_publisher.Utils.{now_rfc3339, and_then}

abbrev pub publication_kind : String
publication_kind = "CertPublication"

abbrev pub group : String
group = "certpublisher.makerland.xyz"

abbrev pub version : String
version = "v1alpha1"

abbrev pub cm_group : String
cm_group = "cert-manager.io"

abbrev pub cm_version : String
cm_version = "v1"

-- `isinstance(exc, ApiException) and exc.status == code`
abbrev pub has_status : ℕ → Kind → Bool
has_status code (api_exception status) = nat_eq status code
has_status code _ = false

-- `except ApiException as exc: if exc.status == 404: return None; raise`
unfoldable pub or_none : {A : Type 0} → Action A → Action (Option A)
or_none m =
    try_except (do a ← m; pure (some a)) (λ e. if has_status 404 e.kind then pure none else raise e)

module _ ⦃w : World⦄ where
  unfoldable pub get_certificate : String → String → Action (Option ManagedCertificate)
  unfolding or_none
  get_certificate namespace name =
      or_none
        (perform (reads_certificate namespace name) (λ h. w.read_certificate h namespace name))

  unfoldable pub create_certificate : String → Body → Action (Unit {0})
  create_certificate namespace body =
      perform (creates_certificate namespace body) (λ h. w.create_certificate h namespace body)

  unfoldable pub patch_certificate : String → String → Fields → Action (Unit {0})
  patch_certificate namespace name spec =
      perform (patches_certificate namespace name spec)
        (λ h. w.patch_certificate h namespace name spec)

  unfoldable pub get_certificate_request : String → String → Action (Option CertificateRequest)
  unfolding or_none
  get_certificate_request namespace name =
      or_none (perform (reads_request namespace name) (λ h. w.read_request h namespace name))

  -- A request that is there already is adopted: it is read in its place.
  unfoldable pub create_certificate_request : String → Body → Action (Unit {0})
  create_certificate_request namespace body =
      try_except (perform (creates_request namespace body) (λ h. w.create_request h namespace body))
        (λ e.
          if has_status 409 e.kind
          then (do
            perform (reads_request namespace body.name) (λ h. w.read_request h namespace body.name)
            pure tt)
          else raise e)

  unfoldable pub delete_certificate_request : String → String → Action (Unit {0})
  delete_certificate_request namespace name =
      try_except (perform (deletes_request namespace name) (λ h. w.delete_request h namespace name))
        (λ e. if has_status 404 e.kind then pure tt else raise e)

  unfoldable pub patch_publication_status : String → String → StatusPatch → Action (Unit {0})
  patch_publication_status namespace name status =
      perform (patches_status namespace name status) (λ h. w.patch_status h namespace name status)

  unfoldable pub get_secret : String → String → Action (Option Secret)
  unfolding or_none
  get_secret namespace name =
      or_none (perform (reads_secret namespace name) (λ h. w.read_secret h namespace name))

  -- Every value is decoded, and the first that is not base64 ends it.
  unfoldable pub decode_values : Dict String → Result (Dict Bytes)
  unfolding and_then
  decode_values [] = ok []
  decode_values ((k, v) ∷ rest) =
      and_then (w.b64decode v)
        (λ value. and_then (decode_values rest) (λ values. ok ((k, value) ∷ values)))

  unfoldable pub secret_data : Secret → Result (Dict Bytes)
  unfolding decode_values
  secret_data secret = elim secret.contents [
    | none ↦ ok []
    | some contents ↦ decode_values contents
  ]

  -- The stamps, and the parts that only name the publication and the operator, are left out of the
  -- posted event.
  unfoldable pub record_event : Publication → String → String → String → Action (Unit {0})
  record_event pub_ type reason message = do
    now_rfc3339
    try_except
        (perform
          (posts_event pub_.namespace
            (record { type = type; reason = reason; message = truncate 1024 message }))
          (λ h.
            w.post_event h pub_.namespace
              (record { type = type; reason = reason; message = truncate 1024 message })))
        (λ e. pure tt)

-- `get_publication`, before there is a publication in memory: on the history of calls alone.
found : Result Publication → Result (Option Publication)
found (ok p) = ok (some p)
found (raised e) = if has_status 404 e.kind then ok none else raised e

unfoldable pub read_publication :
    ⦃w : World⦄ → String → String → History → Result (Option Publication) × History
unfolding found
read_publication ⦃w⦄ namespace name h =
    let r = w.read_publication h namespace name in
    (found r, record { call = reads_publication namespace name; succeeded = returned r } ∷ h)
