-- ===== src/Provisioners/Winrm.antt =====
-- src/cert_publisher/provisioners/winrm.py, class WinRMProvisioner: the certificate goes to a
-- certificate store or to files of a Windows host, by scripts over a session that is pinned to the
-- thumbprint of the listener.
pub mod Pinning
pub mod Ordering
mod Examples
use Prim.Native.String
use cert_publisher.Prelude.{
  ℕ, String, Bool, true, false, not, ◌&&◌, ◌||◌, Option, none, some, List, [], ◌∷◌, ◌++◌, ◌==◌,
  if◌then◌else◌,
}
use cert_publisher.Prelude.Int.{pos}
use cert_publisher.Prelude.Keys.{contains, Dict, get}
use cert_publisher.Prelude.Text.{concat}
use cert_publisher.Resources.{Bytes}
use cert_publisher.Effects.{
  value_error, lookup_error, runtime_error, Kind, Exception, Result, ok, raised, World, Action,
}
use cert_publisher.Effects as Effects
use cert_publisher.Retry.{with_retries, default_retryable}
use cert_publisher.Utils.{and_then, leaf_certificate}
use cert_publisher.Provisioners.Trace.{Trace, pure, raise, lift, ask, finally, ensure, ◌>>=◌, ◌>>◌}
use cert_publisher.Provisioners.Credentials.{Credentials, Auth, resolve_credentials}
use cert_publisher.Provisioners.Ssh.{truthy, or_default, is_value_error}
use cert_publisher.Provisioners.Unattended.{unattended_host}
use cert_publisher.Provisioners.WinrmSession.{
  Winrm, mode_cert_store, mode_file, starts_with, ps_configurations, verify_endpoint, wsman,
  with_pool, default_pool,
}
use cert_publisher.Provisioners.Powershell.{
  Script, probe_cert_store, read_file_b64, install_cert_store, write_file, run_post_install, Value,
  text, bytes, flag, null, Wsman, Pool, Invocation, Wire, handshakes, opens, closes, leaves,
  Outside, join, invoke, first_line,
}

pub value_of : Option String → Value
value_of none = null
value_of (some s) = text s

or_false : Result Bool → Result Bool
or_false (ok b) = ok b
or_false (raised e) = if is_value_error e.kind then ok false else raised e

-- `certs[0]` and `certs[1:] or None`
pub head : List Bytes → Result Bytes
head [] = raised (record { kind = lookup_error; text = "list index out of range" })
head (c ∷ _) = ok c

pub others : List Bytes → Option (List Bytes)
others [] = none
others (_ ∷ []) = none
others (_ ∷ c ∷ cs) = some (c ∷ cs)

module _ ⦃o : Outside⦄ where
  module _ ⦃w : World⦄ where
    -- utils.py
    pub sha1_thumbprint : Bytes → Result String
    unfolding and_then
    sha1_thumbprint pem = and_then (leaf_certificate pem) (λ c. ok (o.sha1_of c))

    -- `_check_exportable_drift`: the warning that it sets.
    pub check_exportable_drift : Bool → String → Option String
    check_exportable_drift true probe_result =
        if probe_result == "present:exportable"
        then none
        else some
            "exportablePrivateKey is enabled but the installed certificate's private key was imported as non-exportable; Windows doesn't support changing that in place, so this will take effect the next time the certificate is renewed"
    check_exportable_drift false probe_result =
        if probe_result == "present:exportable"
        then some
            "exportablePrivateKey is disabled but the installed certificate's private key was imported as exportable; Windows doesn't support changing that in place, so this will take effect the next time the certificate is renewed"
        else none

    -- What a probe of the store says: whether the certificate is current, and `pending_warning`.
    pub probed : Bool → String → Bool × Option String
    unfolding starts_with check_exportable_drift
    probed exportable result =
        if starts_with "present" result
        then if result == "present:nokey"
          then (true, none)
          else (true, check_exportable_drift exportable result)
        else (false, none)

    cert_store_is_current : Winrm → Bytes → Pool → Trace Wire (Bool × Option String)
    unfolding probed
    cert_store_is_current h cert_pem pool = do
      thumbprint ← lift (sha1_thumbprint cert_pem)
      output ← invoke (record {
        pool = pool;
        script = probe_cert_store;
        parameters =
            ("StoreLocation", text h.store_location)
            ∷ ("StoreName", text h.store_name)
            ∷ ("Thumbprint", text thumbprint)
            ∷ [];
        secure_parameters = [];
      })
      pure (probed h.exportable_private_key (first_line output))

    -- The comparison of `_file_is_current`, with its `except ValueError`.
    same_thumbprint : String → Bytes → Result Bool
    unfolding and_then or_false
    same_thumbprint remote cert_pem =
        if remote == ""
        then ok false
        else or_false (
            and_then (w.b64decode remote) (λ pem.
              and_then (sha1_thumbprint pem)
                (λ a. and_then (sha1_thumbprint cert_pem) (λ b. ok (a == b)))))

    file_is_current : Winrm → Bytes → Pool → Trace Wire (Bool × Option String)
    unfolding value_of same_thumbprint
    file_is_current h cert_pem pool = do
      output ← invoke (record {
        pool = pool;
        script = read_file_b64;
        parameters = ("Path", value_of h.cert_path) ∷ [];
        secure_parameters = [];
      })
      same ← lift (same_thumbprint (first_line output) cert_pem)
      pure (same, none)

    probe : Winrm → Bytes → Pool → Trace Wire (Bool × Option String)
    unfolding cert_store_is_current file_is_current
    probe h cert_pem pool =
        if h.mode == mode_cert_store
        then cert_store_is_current h cert_pem pool
        else file_is_current h cert_pem pool

    -- The answer, with `pending_warning`, which is cleared first.
    unfoldable pub is_current : Winrm → Bytes → Trace Wire (Bool × Option String)
    unfolding probe default_pool with_pool
    is_current h cert_pem = do
      verify_endpoint h
      client ← wsman h
      finally leaves (with_pool (default_pool client) (probe h cert_pem))

    token : Trace Wire String
    token t = (ok (o.token_urlsafe t), t)

    install_store : Winrm → Bytes → Bytes → Pool → Trace Wire (Unit {0})
    unfolding head others token
    install_store h cert_pem key_pem pool = do
      certs ← lift (o.load_certificates cert_pem)
      key ← lift (o.load_private_key key_pem)
      pfx_password ← token
      cert ← lift (head certs)
      pfx ← lift (o.serialize key cert (others certs) pfx_password)
      invoke (record {
        pool = pool;
        script = install_cert_store;
        parameters =
            ("PfxBytes", bytes pfx)
            ∷ ("StoreLocation", text h.store_location)
            ∷ ("StoreName", text h.store_name)
            ∷ ("Exportable", flag h.exportable_private_key)
            ∷ [];
        secure_parameters = ("Password", pfx_password) ∷ [];
      })
      pure tt

    put_file : Pool → Value → Bytes → Trace Wire (Unit {0})
    put_file pool path contents = do
      invoke (record {
        pool = pool;
        script = write_file;
        parameters = ("Path", path) ∷ ("Content", bytes contents) ∷ [];
        secure_parameters = [];
      })
      pure tt

    put_key : Pool → Option String → Bytes → Trace Wire (Unit {0})
    unfolding put_file
    put_key pool none key_pem = pure tt
    put_key pool (some path) key_pem = put_file pool (text path) key_pem

    install_files : Winrm → Bytes → Bytes → Pool → Trace Wire (Unit {0})
    unfolding put_file put_key value_of
    install_files h cert_pem key_pem pool = do
      put_file pool (value_of h.cert_path) cert_pem
      put_key pool (truthy h.key_path) key_pem

    publish : Winrm → Bytes → Bytes → Pool → Trace Wire (Unit {0})
    unfolding install_store install_files
    publish h cert_pem key_pem pool =
        if h.mode == mode_cert_store
        then install_store h cert_pem key_pem pool
        else install_files h cert_pem key_pem pool

    post_install_configuration : Winrm → Result String
    unfolding ps_configurations
    post_install_configuration h = elim (get h.powershell ps_configurations) [
      | some configuration ↦ ok configuration
      | none ↦ raised (record { kind = lookup_error; text = o.repr h.powershell })
    ]

    hook : String → Bytes → Pool → Trace Wire (Unit {0})
    hook script cert_pem pool = do
      thumbprint ← lift (sha1_thumbprint cert_pem)
      invoke (record {
        pool = pool;
        script = run_post_install;
        parameters = ("Script", text script) ∷ ("Thumbprint", text thumbprint) ∷ [];
        secure_parameters = [];
      })
      pure tt

    post_install : Winrm → Wsman → Bytes → Option String → Trace Wire (Unit {0})
    unfolding post_install_configuration hook with_pool
    post_install h client cert_pem none = pure tt
    post_install h client cert_pem (some script) = do
      configuration ← lift (post_install_configuration h)
      with_pool
          (record {
            wsman = client;
            configuration_name = some configuration;
            host = unattended_host;
          })
          (hook script cert_pem)

    deliver : Winrm → Bytes → Bytes → Wsman → Trace Wire (Unit {0})
    unfolding publish post_install default_pool with_pool
    deliver h cert_pem key_pem client = do
      with_pool (default_pool client) (publish h cert_pem key_pem)
      post_install h client cert_pem (truthy h.post_install_script)

    install_known : Winrm → Bytes → Bytes → Trace Wire (Unit {0})
    unfolding deliver
    install_known h cert_pem key_pem = do
      verify_endpoint h
      client ← wsman h
      finally leaves (deliver h cert_pem key_pem client)

    unknown_mode : Winrm → Exception
    unknown_mode h = record {
      kind = value_error;
      text = concat ("unknown winrm mode: " ∷ o.repr h.mode ∷ []);
    }

    known_mode : Winrm → Bool
    known_mode h = h.mode == mode_cert_store || h.mode == mode_file

    unfoldable pub install : Winrm → Bytes → Bytes → Trace Wire (Unit {0})
    unfolding install_known unknown_mode known_mode
    install h cert_pem key_pem =
        if known_mode h then install_known h cert_pem key_pem else raise (unknown_mode h)
