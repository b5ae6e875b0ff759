-- ===== src/Provisioners/Winrm/Examples.antt =====
-- The properties of the WinRM provisioner, on one host.
use cert_publisher.Prelude.{◌≡◌, false, none, some, List, [], ◌∷◌}
use cert_publisher.Samples.{world}
use cert_publisher.Provisioners.Samples.{outside}
use cert_publisher.Provisioners.Trace.Triple.{Triple}
use cert_publisher.Provisioners.Ssh.{truthy}
use cert_publisher.Provisioners.Powershell.{Wire, leaves}
use cert_publisher.Provisioners.WinrmSession.{Winrm}
use cert_publisher.Provisioners.Winrm.{is_current, install}
use cert_publisher.Provisioners.Winrm.Pinning.{IsPinned, sessions-IsPinned}
use cert_publisher.Provisioners.Winrm.Ordering.{IsOrdered, IsDone, install-IsOrdered}

abbrev host : Winrm
host = record {
  host = "win.example";
  port = 5986;
  username = "admin";
  thumbprint = "A0";
  transport = "ntlm";
  credentials = record { password = some "secret"; private_key = none; passphrase = none };
  mode = "certStore";
  store_location = "LocalMachine";
  store_name = "My";
  cert_path = none;
  key_path = none;
  post_install_script = some "Restart-Service w3svc";
  exportable_private_key = false;
  powershell = "5.1";
}

sessions-IsPinned_example :
    IsPinned ⦃o = outside⦄ host (is_current ⦃o = outside⦄ ⦃w = world⦄ host [] []).1
    × IsPinned ⦃o = outside⦄ host (install ⦃o = outside⦄ ⦃w = world⦄ host [] [] []).1
sessions-IsPinned_example = sessions-IsPinned ⦃o = outside⦄ host ⦃w = world⦄ [] [] [] tt

install-IsOrdered_example :
    Triple []
      (install ⦃o = outside⦄ ⦃w = world⦄ host [] [])
      (λ x u.
        ((v : List Wire) × (u ≡ leaves ∷ v)
          × IsDone ⦃o = outside⦄ ⦃w = world⦄ host [] [] (truthy host.post_install_script) v)
        × IsOrdered ⦃o = outside⦄ ⦃w = world⦄ host [] [] u)
      (λ e. IsOrdered ⦃o = outside⦄ ⦃w = world⦄ host [] [])
install-IsOrdered_example = install-IsOrdered ⦃o = outside⦄ ⦃w = world⦄ host [] [] [] tt
