-- ===== src/Provisioners/Build/Local.antt =====
-- Which Secret a provisioner's credentials come from, and which provisioner is built.
use cert_publisher.Prelude.{
  ℕ, String, ◌≡◌, ◌⊎◌, inl, inr, refl, Bool, Option, none, some, ◌∷◌, ◌==◌, eq_iff, Bool-cases,
}
use cert_publisher.Resources.{Bytes}
use cert_publisher.Effects.{Result, ok, raised, World, Action, State, reads_secret, pure, raise}
use cert_publisher.Effects.Hoare.{Post, Post-bind, Post-lift}
use cert_publisher.Provisioners.Credentials.{Credentials, Auth, resolve_credentials}
use cert_publisher.Provisioners.Credentials.Local.{named, IsLocal, resolve_credentials-IsLocal}
use cert_publisher.Provisioners.Powershell as Powershell
use cert_publisher.Provisioners.Build.{
  SshSpec, WinrmSpec, Idrac8Spec, ProvisionerSpec, Provisioner, by_ssh, by_winrm, by_idrac8,
  build_provisioner, ssh_from_spec, winrm_from_spec, idrac8_from_spec, create_winrm, required,
  pathless,
}

abbrev pub type_of : Provisioner → String
type_of (by_ssh h) = "ssh"
type_of (by_winrm h) = "winrm"
type_of (by_idrac8 h) = "idrac8"

-- Nothing was called from `s` to `t`, or one Secret of the namespace was read.
abbrev pub ReadsOne : String → State → State → Type 0
ReadsOne namespace s t =
    (t ≡ s)
    ⊎ ((name : String) × (b : Bool) × (t ≡ record s {
      history = record { call = reads_secret namespace name; succeeded = b } ∷ s.history;
    }))

module _ ⦃w : World⦄ (decode : Bytes → Result String) (namespace : String) (s : State) where
  local_reads :
      (ref : Option String) (o : Result Credentials × State)
      → IsLocal decode ref namespace s o
      → Post (λ c. ReadsOne namespace s) (λ e. ReadsOne namespace s) o
  local_reads none (ok c, t) h = inl h.0
  local_reads none (raised e, t) h = inl h.0
  local_reads (some name) (ok c, t) h = inr (name, h.0, h.1)
  local_reads (some name) (raised e, t) h = inr (name, h.0, h.1)

  credentials-ReadsOne :
      (auth : Option Auth)
      → Post
          (λ c. ReadsOne namespace s)
          (λ e. ReadsOne namespace s)
          (resolve_credentials decode auth namespace s)
  credentials-ReadsOne auth =
      local_reads (named auth) _ (resolve_credentials-IsLocal decode auth namespace s)

  module _ ⦃o : Powershell.Outside⦄ (int_base_8 : String → Result ℕ) (lower : String → String) where
    -- The provisioner is of this type, and one Secret at most was read.
    abbrev IsBuilt : String → Result Provisioner × State → Type 0
    IsBuilt type =
        Post (λ p t. (type_of p ≡ type) × ReadsOne namespace s t) (λ e. ReadsOne namespace s)

    ssh-IsBuilt :
        (spec : SshSpec) → IsBuilt "ssh" (ssh_from_spec decode int_base_8 lower spec namespace s)
    unfolding ssh_from_spec pure
    ssh-IsBuilt spec = Post-bind _ _ _ _ _ s (credentials-ReadsOne spec.auth) (λ c t r.
        Post-lift _ _ _ _ t (λ m e. Post-lift _ _ _ _ t (λ n e. (refl, r)) (λ e. r)) (λ e. r))

    winrm-IsBuilt :
        (spec : WinrmSpec)
        → IsBuilt "winrm" (winrm_from_spec decode int_base_8 lower spec namespace s)
    unfolding winrm_from_spec create_winrm pure raise
    winrm-IsBuilt spec = elim (Bool-cases (pathless decode int_base_8 lower spec)) [
      | inl e ↦ simp e (inl refl)
      | inr e ↦ simp e (
          Post-bind _ _ _ _ _ s (credentials-ReadsOne spec.auth)
            (λ c t r. Post-lift _ _ _ _ t (λ h e. (refl, r)) (λ e. r)))
    ]

    idrac8-IsBuilt :
        (spec : Idrac8Spec)
        → IsBuilt "idrac8" (idrac8_from_spec decode int_base_8 lower spec namespace s)
    unfolding idrac8_from_spec pure
    idrac8-IsBuilt spec =
        Post-bind _ _ _ _ _ s (credentials-ReadsOne spec.auth) (λ c t r. (refl, r))

    required-IsBuilt :
        {A : Type 0} (type key : String) (spec : Option A) (build : A → Action Provisioner)
        → ((a : A) → IsBuilt type (build a s))
        → IsBuilt type (required decode int_base_8 lower key spec build s)
    unfolding required raise
    required-IsBuilt type key none build h = inl refl
    required-IsBuilt type key (some a) build h = h a

    -- `build_provisioner` reads one Secret of the publication's namespace at most and makes no other call, whatever it comes to; the
    -- provisioner that it returns, if it does, is of the type that the publication names.
    pub build_provisioner-IsBuilt :
        (spec : ProvisionerSpec)
        → IsBuilt spec.type (build_provisioner decode int_base_8 lower spec namespace s)
    unfolding build_provisioner raise
    build_provisioner-IsBuilt spec = elim (Bool-cases (spec.type == "ssh")) [
      | inl a ↦
          rw (a, (eq_iff spec.type "ssh").0 a) (required-IsBuilt "ssh" "ssh" spec.ssh _ ssh-IsBuilt)
      | inr a ↦ elim (Bool-cases (spec.type == "winrm")) [
        | inl b ↦
            rw (a, b, (eq_iff spec.type "winrm").0 b)
              (required-IsBuilt "winrm" "winrm" spec.winrm _ winrm-IsBuilt)
        | inr b ↦ elim (Bool-cases (spec.type == "idrac8")) [
          | inl c ↦
              rw (a, b, c, (eq_iff spec.type "idrac8").0 c)
                (required-IsBuilt "idrac8" "idrac8" spec.idrac8 _ idrac8-IsBuilt)
          | inr c ↦ simp (a, b, c) (inl refl)
        ]
      ]
    ]
