-- ===== src/Reconcile.antt =====
-- src/cert_publisher/reconcile.py: one pass over one publication, by who owns the private key.
mod Names
mod Examples
pub mod Keeps
pub mod Policy
pub mod Renewal
pub mod Signing
pub mod Resolution
pub mod SecretKeyed
pub mod HostKeyed
pub mod Safety
use cert_publisher.Prelude.{String, Bool, true, false, ◌==◌, if◌then◌else◌}
use cert_publisher.Effects.{World, Action, get_publication, ◌>>=◌}
use Renewal.{Requeue}
use SecretKeyed.{reconcile_secret_keyed}
use HostKeyed.{reconcile_host_keyed}

-- src/cert_publisher/provisioners/__init__.py
pub manages_own_key : String → Bool
manages_own_key provisioner_type = provisioner_type == "idrac8"

pub reconcile_publication : ⦃w : World⦄ → Action Requeue
unfolding manages_own_key
reconcile_publication = do
  p ← get_publication
  if manages_own_key p.spec.provisioner_type then reconcile_host_keyed else reconcile_secret_keyed
