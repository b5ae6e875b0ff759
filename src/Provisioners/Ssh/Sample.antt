-- ===== src/Provisioners/Ssh/Sample.antt =====
-- An SSH host that gives back what was written, and an installation on it.
use cert_publisher.Prelude.{ap, ◌≡◌, refl, Option, none, some, List, []}
use cert_publisher.Effects.{World, Result, ok, raised, os_error}
use cert_publisher.Resources.{Bytes}
use cert_publisher.Samples.{world}
use cert_publisher.Utils.{sha256_fingerprint, leaf_certificate, and_then}
use cert_publisher.Utils.Pem.Bare.{bare, leaf_pem-bare}
use cert_publisher.Retry.{with_retries, try_from, final, earlier, at_least_one, default_retryable}
use cert_publisher.Provisioners.Trace.{◌>>=◌, lift, ask, finally, pure}
use cert_publisher.Provisioners.Ssh.Stays.{Holds}
use cert_publisher.Provisioners.Ssh.{
  Outside, Ssh, Wire, install, deliver, put_files, put, run_script, check_status, login_of, keyed,
  connect, connect_with, truthy,
}
use cert_publisher.Provisioners.Ssh.Published.{IsFaithful, stored}

pub found : Option Bytes → Result Bytes
found none = raised (record { kind = os_error; text = "No such file" })
found (some b) = ok b

abbrev pub outside : Outside
outside = record {
  from_private_key = λ t pem p. ok [];
  sha256 = λ b. b;
  connect = λ t policy login n. ok tt;
  open_sftp = λ t. ok tt;
  read = λ t path. found (stored path t);
  write = λ t path b. ok tt;
  chmod = λ t path m. ok tt;
  exec_command = λ t script. ok 0;
  stderr = λ t. ok "";
  str = λ n. "22";
  retry_base = 1;
  retry_attempts = 3;
}

abbrev pub host : Ssh
host = record {
  host = "ssh.example";
  port = 22;
  username = "root";
  host_fingerprint = "SHA256:x";
  credentials = record { password = some "secret"; private_key = none; passphrase = none };
  cert_path = "/etc/tls/tls.crt";
  key_path = "/etc/tls/tls.key";
  cert_mode = 420;
  key_mode = 384;
  post_install_script = some "systemctl reload nginx";
}

pub outside-IsFaithful : IsFaithful outside
unfolding found
outside-IsFaithful t path contents e = ap found e

pub bare-fingerprint : sha256_fingerprint ⦃w = world⦄ bare ≡ ok "f0"
unfolding sha256_fingerprint leaf_certificate and_then
bare-fingerprint =
    ap (λ r. and_then (and_then r world.load_pem) (λ c. ok c.fingerprint)) leaf_pem-bare

abbrev pub after_install : List Wire
after_install = (install ⦃w = world⦄ ⦃o = outside⦄ host bare [] []).1

pub installed : install ⦃w = world⦄ ⦃o = outside⦄ host bare [] [] ≡ (ok tt, after_install)
unfolding install deliver put_files put run_script check_status truthy connect connect_with login_of
    keyed ◌>>=◌ lift ask finally pure with_retries try_from final earlier at_least_one
    default_retryable
installed = refl

pub connected : (connect ⦃w = world⦄ ⦃o = outside⦄ host after_install).0 ≡ ok tt
unfolding truthy connect connect_with login_of keyed ◌>>=◌ lift ask with_retries try_from final
    earlier at_least_one default_retryable
connected = refl

pub install-Holds_sample :
    (w : World)
    → Holds ⦃w = w⦄ ⦃o = outside⦄ host bare (install ⦃w = w⦄ ⦃o = outside⦄ host bare [] []).1
unfolding install deliver put_files put run_script check_status truthy connect connect_with login_of
    keyed ◌>>=◌ lift ask finally pure with_retries try_from final earlier at_least_one
    default_retryable stored
install-Holds_sample w = refl
