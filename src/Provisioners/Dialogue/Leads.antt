-- ===== src/Provisioners/Dialogue/Leads.antt =====
-- Where one talk, from one line, leads the trail.
use cert_publisher.Effects.{Result, ok, raised}
use cert_publisher.Provisioners.Dialogue.{Trail, Line, Talk, continue, ◌>>=◌}
use cert_publisher.Provisioners.Dialogue.Keeps.{Keeps}
use cert_publisher.Provisioners.Dialogue.Ends.{Returns, Ends}

-- Whether the talk returns or raises, `P` holds of the trail behind it.
pub record Leads (P : Trail → Type 0) {A : Type 0} (m : Talk A) (l : Line) : Type 0 where
  pub led : P (m l).1.trail

module _ (P : Trail → Type 0) {A B : Type 0} where
  led_on :
      (S : A → Trail → Type 0) (r : Result A) (f : A → Talk B) (l : Line)
      → P l.trail
      → Returns S (r, l)
      → ((a : A) (l' : Line) → P l'.trail → S a l'.trail → Leads P (f a) l')
      → P (continue r f l).1.trail
  led_on S (ok a) f l p s k = (k a l p s).led
  led_on S (raised e) f l p s k = p

  -- The first talk keeps `P`, and what holds when it returns makes the second keep it.
  pub Leads-then :
      (S : A → Trail → Type 0) (m : Talk A) (f : A → Talk B) (l : Line)
      → Keeps P m
      → Ends S m l
      → P l.trail
      → ((a : A) (l' : Line) → P l'.trail → S a l'.trail → Leads P (f a) l')
      → Leads P (m >>= f) l
  unfolding ◌>>=◌
  Leads-then S m f l k e p j = record { led = led_on S (m l).0 f (m l).1 (k.kept l p) e.ended j }

  kept_on :
      (r : Result A) (f : A → Talk B) (l : Line)
      → P l.trail
      → ((a : A) → Keeps P (f a))
      → P (continue r f l).1.trail
  kept_on (ok a) f l p k = (k a).kept l p
  kept_on (raised e) f l p k = p

  -- The first talk leads to `P`, and the second keeps it.
  pub Leads-before :
      (m : Talk A) (f : A → Talk B) (l : Line)
      → Leads P m l
      → ((a : A) → Keeps P (f a))
      → Leads P (m >>= f) l
  unfolding ◌>>=◌
  Leads-before m f l h k = record { led = kept_on (m l).0 f (m l).1 h.led k }
