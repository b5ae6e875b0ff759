-- ===== src/Provisioners/Ssh/Examples.antt =====
-- The properties of the SSH provisioner, on one host that gives back what was written.
use cert_publisher.Prelude.{◌≡◌, refl, true, []}
use cert_publisher.Effects.{ok}
use cert_publisher.Samples.{world}
use cert_publisher.Utils.Pem.Bare.{bare}
use cert_publisher.Provisioners.Trace.Triple.{Triple}
use cert_publisher.Provisioners.Ssh.{
  Outside, Ssh, Wire, is_current, install, deliver, put_files, put, run_script, check_status,
  login_of, keyed, connect, connect_with, truthy,
}
use cert_publisher.Provisioners.Ssh.Sample.{
  outside, host, outside-IsFaithful, bare-fingerprint, after_install, installed, connected,
}
use cert_publisher.Provisioners.Ssh.Pinning.{IsPinned, connections-IsPinned}
use cert_publisher.Provisioners.Ssh.Staging.{IsStaged, IsDone, install-IsStaged}
use cert_publisher.Provisioners.Ssh.Sessions.{IsClosed, sessions-IsClosed}
use cert_publisher.Provisioners.Ssh.Published.{is_current-install}

connections-IsPinned_example :
    IsPinned ⦃w = world⦄ ⦃o = outside⦄ host (is_current ⦃w = world⦄ ⦃o = outside⦄ host [] []).1
    × IsPinned ⦃w = world⦄ ⦃o = outside⦄ host (install ⦃w = world⦄ ⦃o = outside⦄ host [] [] []).1
connections-IsPinned_example = connections-IsPinned ⦃w = world⦄ ⦃o = outside⦄ host [] [] [] tt

install-IsStaged_example :
    Triple []
      (install ⦃w = world⦄ ⦃o = outside⦄ host [] [])
      (λ a u. IsDone host [] [] (truthy host.post_install_script) u × IsStaged host [] [] u)
      (λ e. IsStaged host [] [])
install-IsStaged_example = install-IsStaged host [] [] ⦃w = world⦄ ⦃o = outside⦄ [] tt

sessions-IsClosed_example :
    IsClosed (is_current ⦃w = world⦄ ⦃o = outside⦄ host [] []).1
    × IsClosed (install ⦃w = world⦄ ⦃o = outside⦄ host [] [] []).1
unfolding cert_publisher.Provisioners.Ssh.Sessions.closed
    cert_publisher.Provisioners.Ssh.Sessions.opened
    cert_publisher.Provisioners.Ssh.Sessions.closed_files
    cert_publisher.Provisioners.Ssh.Sessions.opened_files
sessions-IsClosed_example = sessions-IsClosed ⦃w = world⦄ ⦃o = outside⦄ host [] [] [] (refl, refl)

is_current-install_example :
    (is_current ⦃w = world⦄ ⦃o = outside⦄ host bare after_install).0 ≡ ok true
is_current-install_example =
    is_current-install host bare [] refl ⦃w = world⦄ ⦃o = outside⦄ "f0" [] after_install
      outside-IsFaithful bare-fingerprint tt installed connected refl
