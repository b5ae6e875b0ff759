-- ===== src/Driven.antt =====
-- The reconcile passes with a provisioner in the place of their parameters: the interface
-- `Provisioner` of provisioners/base.py, and the world in which the passes' calls run over it.
pub mod Converges
pub mod Installing
pub mod Passes
mod Examples
use cert_publisher.Prelude.{String, Bool, Option, List, [], ◌∷◌}
use cert_publisher.Resources.{Bytes}
use cert_publisher.Effects.{World, Call, checks_current, installs, History}
use cert_publisher.Provisioners.Trace.{Trace}

-- The abstract class: its answer to `is_current` comes with its `pending_warning`.
pub record Provisioner : Type 1 where
  pub Wire : Type 0
  pub is_current : Bytes → Trace Wire (Bool × Option String)
  pub install : Bytes → Bytes → Trace Wire (Unit {0})

module _ (p : Provisioner) where
  -- What a call adds to the trail of the host.
  unfoldable pub advance : Call → List p.Wire → List p.Wire
  advance (checks_current cert_pem) t = (p.is_current cert_pem t).1
  advance (installs cert_pem key_pem) t = (p.install cert_pem key_pem t).1
  advance _ t = t

  -- The trail of the host after the calls of the passes.
  unfoldable pub replay : History → List p.Wire
  unfolding advance
  replay [] = []
  replay (e ∷ h) = advance e.call (replay h)

  abbrev pub drive : World → World
  drive w = record w {
    is_current = λ h cert_pem. (p.is_current cert_pem (replay h)).0;
    install = λ h cert_pem key_pem. (p.install cert_pem key_pem (replay h)).0;
  }
