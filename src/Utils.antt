-- ===== src/Utils.antt =====
-- src/cert_publisher/utils.py. Times are microseconds since 0001-01-01 and spans of time are
-- microseconds. Durations are read over the code points of the text; a fraction of a microsecond is
-- dropped, where the source rounds a float. Digits and spaces are those of ASCII.
pub mod Pem
pub mod Duration
use cert_publisher.Prelude.{
  ℕ, zero, suc, ◌+◌, ◌-◌, ◌*◌, ◌/◌, String, Bool, true, false, ◌&&◌, ◌||◌, Option, none, some, List,
  [], ◌∷◌, ◌++◌, ltb, leb, nat_eq, ◌==◌, ◌≡◌, refl, if◌then◌else◌,
}
use cert_publisher.Prelude.Int.{ℤ, pos}
use cert_publisher.Resources.{Bytes, X509}
use cert_publisher.Effects.{
  value_error, Exception, Result, ok, raised, World, Action, pure, lift, now_utc, ◌>>=◌,
}
use Pem.{leaf_pem}
use Duration.{parse_go_duration}

unfoldable pub and_then {ℓ κ} : {A : Type ℓ} {B : Type κ} → Result A → (A → Result B) → Result B
and_then (ok a) f = f a
and_then (raised e) f = raised e

pub and_then-eq-ok {ℓ κ} :
    {A : Type ℓ} {B : Type κ} (r : Result A) (f : A → Result B) {b : B}
    → and_then r f ≡ ok b
    → (a : A) × (r ≡ ok a) × (f a ≡ ok b)
unfolding and_then
and_then-eq-ok (ok a) f h = (a, refl, h)
and_then-eq-ok (raised e) f h = cc

module _ ⦃w : World⦄ where
  unfoldable pub rfc3339 : ℕ → String
  rfc3339 t = w.strftime t

  unfoldable pub now_rfc3339 : Action String
  unfolding rfc3339
  now_rfc3339 = do t ← now_utc; pure (rfc3339 t)

  unfoldable pub parse_rfc3339 : String → Result ℕ
  parse_rfc3339 value = w.strptime value

  unfoldable pub leaf_certificate : Bytes → Result X509
  unfolding and_then
  leaf_certificate pem = and_then (leaf_pem pem) w.load_pem

  unfoldable pub sha256_fingerprint : Bytes → Result String
  unfolding and_then
  sha256_fingerprint pem = and_then (leaf_certificate pem) (λ c. ok c.fingerprint)

-- The window before the end of the certificate in which it is renewed. An empty `renewBefore`
-- counts as none. The third of the lifetime is rounded to the microsecond.
renewal_window : X509 → Option String → Result ℕ
renewal_window c none = ok ((c.not_after - c.not_before + 1) / 3)
renewal_window c (some r) =
    if r == "" then ok ((c.not_after - c.not_before + 1) / 3) else parse_go_duration r

unfoldable pub renewal_due : X509 → Option String → ℕ → Result Bool
unfolding renewal_window and_then
renewal_due c renew_before now =
    if ltb now c.not_before || leb c.not_after now
    then ok true
    else and_then (renewal_window c renew_before) (λ window. ok (leb (c.not_after - now) window))
