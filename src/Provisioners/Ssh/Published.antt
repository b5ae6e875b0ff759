-- ===== src/Provisioners/Ssh/Published.antt =====
-- What was installed is found again.
use cert_publisher.Prelude.{
  String, true, false, Option, none, some, ◌≡◌, List, [], ◌∷◌, ◌==◌, if◌then◌else◌, arith, ◌∙◌, ap,
  subst,
}
use cert_publisher.Prelude.Keys.{self_eq}
use cert_publisher.Resources.{Bytes}
use cert_publisher.Effects.{Result, ok, raised, World}
use cert_publisher.Utils.{sha256_fingerprint}
use cert_publisher.Provisioners.Trace.{ask, finally, except, pure, lift, ◌>>=◌}
use cert_publisher.Provisioners.Trace.Triple.{Triple, Triple-bind, Triple-lift, Triple-ask, Ended}
use cert_publisher.Provisioners.Ssh.{
  Outside, Ssh, Wire, opens_sftp, writes, connect, connect_with, install, is_current, existing_cert,
  read_cert, compared, truthy,
}
use cert_publisher.Provisioners.Ssh.Staging.{HasFiles, IsDone, IsStaged, install-IsStaged}

-- What a file holds by the trail, where the trail says it.
unfoldable pub stored : String → List Wire → Option Bytes
stored path [] = none
stored path (writes p contents (ok u) ∷ t) = if p == path then some contents else stored path t
stored path (writes p contents (raised e) ∷ t) = if p == path then none else stored path t
stored path (_ ∷ t) = stored path t

-- The host gives back what was last written: nobody else writes the file, the script included.
abbrev pub IsFaithful : Outside → Type 0
IsFaithful o =
    (t : List Wire) (path : String) (contents : Bytes)
    → stored path t ≡ some contents
    → o.read t path ≡ ok contents

module _ (h : Ssh) (cert_pem key_pem : Bytes) (apart : (h.key_path == h.cert_path) ≡ false) where
  HasFiles-stored :
      (t : List Wire) → HasFiles h cert_pem key_pem t → stored h.cert_path t ≡ some cert_pem
  unfolding stored
  HasFiles-stored t (t0, e) = ap (stored h.cert_path) e ∙ ground (arith, self_eq h.cert_path)

  IsDone-stored :
      (script : Option String) (t : List Wire)
      → IsDone h cert_pem key_pem script t
      → stored h.cert_path t ≡ some cert_pem
  unfolding stored
  IsDone-stored none t (u, e, f) = ap (stored h.cert_path) e ∙ HasFiles-stored u f
  IsDone-stored (some script) t (u, e, f) = ap (stored h.cert_path) e ∙ HasFiles-stored u f

  module _ ⦃w : World⦄ ⦃o : Outside⦄ where
    connect-stored :
        (t : List Wire)
        → stored h.cert_path t ≡ some cert_pem
        → Triple t (connect h) (λ a u. stored h.cert_path u ≡ some cert_pem) (λ e u. Unit)
    unfolding connect connect_with stored
    connect-stored t p =
        Triple-bind (λ login u. stored h.cert_path u ≡ some cert_pem) _ _ t _ _
          (Triple-lift _ _ t _ (λ a e. p) (λ x e. tt))
          (λ login u q. Triple-ask _ _ u _ _ (λ a. q) (λ e. tt))

    stored_after :
        (o' : Result (Unit {0}) × List Wire)
        → Ended (λ a u. stored h.cert_path u ≡ some cert_pem) (λ e u. Unit) o'
        → o'.0 ≡ ok tt
        → stored h.cert_path o'.1 ≡ some cert_pem
    stored_after (ok a, u) p e = p
    stored_after (raised x, u) p e = cc

    ended-IsDone :
        (u : List Wire) (r : Result (Unit {0}) × List Wire)
        → r ≡ (ok tt, u)
        → Ended
            (λ a v.
              IsDone h cert_pem key_pem (truthy h.post_install_script) v
              × IsStaged h cert_pem key_pem v)
            (λ e v. IsStaged h cert_pem key_pem v)
            r
        → IsDone h cert_pem key_pem (truthy h.post_install_script) u
    ended-IsDone u r e p =
        (subst
          (Ended
            (λ a v.
              IsDone h cert_pem key_pem (truthy h.post_install_script) v
              × IsStaged h cert_pem key_pem v)
            (λ x v. IsStaged h cert_pem key_pem v))
          e p).0

    compared_self : (f : String) → compared f (ok f) ≡ ok true
    unfolding compared
    compared_self f = ap ok (self_eq f)

    is_current_stored :
        (f : String) (u : List Wire)
        → IsFaithful o
        → sha256_fingerprint cert_pem ≡ ok f
        → stored h.cert_path u ≡ some cert_pem
        → (connect h u).0 ≡ ok tt
        → o.open_sftp (connect h u).1 ≡ ok tt
        → (is_current h cert_pem u).0 ≡ ok true
    unfolding is_current existing_cert read_cert ◌>>=◌ lift finally ask except pure
    is_current_stored f u faithful e p c s =
        simp
          (
            e,
            c,
            s,
            faithful (opens_sftp (ok tt) ∷ (connect h u).1) h.cert_path cert_pem
                (unfold stored in stored_after (connect h u) (connect-stored u p).ended c),
          )
          (compared_self f)

    -- After `install` has returned, `is_current` answers True for the same certificate when it gets a
    -- connection and a file session: on a host that gives back what was written last, for a certificate
    -- that has a fingerprint, and a key that goes to another path. The run before may have any trail on which a script ran
    -- only after its files.
    pub is_current-install :
        (f : String) (t u : List Wire)
        → IsFaithful o
        → sha256_fingerprint cert_pem ≡ ok f
        → IsStaged h cert_pem key_pem t
        → install h cert_pem key_pem t ≡ (ok tt, u)
        → (connect h u).0 ≡ ok tt
        → o.open_sftp (connect h u).1 ≡ ok tt
        → (is_current h cert_pem u).0 ≡ ok true
    is_current-install f t u faithful e p i c s =
        is_current_stored f u faithful e
          (IsDone-stored _ u (ended-IsDone u _ i (install-IsStaged h cert_pem key_pem t p).ended)) c
          s
