-- ===== src/Backoff/Growth.antt =====
-- How the delay grows with the failures, and its bounds.
use native.Mathlib.Nat.{pow-suc, mul-le-mul_left}
use native.Mathlib.Decide.{dec_lt}
use cert_publisher.Prelude.{
  ℕ, suc, ◌+◌, ◌-◌, ◌*◌, ◌/◌, ◌^◌, ◌≤◌, ◌<◌, min, String, ◌≡◌, arith, nat_eq, Bool-cases, inl, inr,
}
use cert_publisher.Prelude.Int.{ℤ, pos, negsuc, ◌+ℤ◌, ◌≤ℤ◌, pos_part, neg_part}
use cert_publisher.Backoff.{ExponentialBackoff, failures, plain_delay, scale, next_backoff}

double : (a n : ℕ) → a * 2 ^ suc n ≡ 2 * (a * 2 ^ n)
double a n = grind (arith, pow-suc)

-- One more failure never shortens the delay, and no number of failures takes it past the maximum.
pub plain_delay_mono :
    (b : ExponentialBackoff) (n : ℕ)
    → (plain_delay b n ≤ plain_delay b (suc n)) × (plain_delay b n ≤ b.maximum)
unfolding plain_delay
plain_delay_mono b n = elim (dec_lt n 32) [
  | yes h ↦
      let e : min n 32 ≡ n = omega arith in
      let f : min (suc n) 32 ≡ suc n = omega arith in rw (e, f) (omega (arith, double b.base n))
  | no h ↦
      let e : min n 32 ≡ 32 = omega arith in
      let f : min (suc n) 32 ≡ 32 = omega arith in rw (e, f) (omega arith)
]

-- One more failure doubles the delay, until the maximum or the 32nd failure stops it.
pub plain_delay-suc :
    (b : ExponentialBackoff) (n : ℕ)
    → n < 32
    → plain_delay b (suc n) ≡ min (2 * plain_delay b n) b.maximum
unfolding plain_delay
plain_delay-suc b n h =
    let e : min n 32 ≡ n = omega arith in
    let f : min (suc n) 32 ≡ suc n = omega arith in rw (e, f) (omega (arith, double b.base n))

scale_lem :
    (delay : ℕ) (draw : ℤ)
    → neg_part draw ≤ 1000
    → scale delay draw ≡ pos (delay * (1000 + pos_part draw - neg_part draw) / 1000)
unfolding scale ◌+ℤ◌
scale_lem delay (pos n) h = ground arith
scale_lem delay (negsuc n) h = ground arith

shares : (p x y : ℕ) → x ≤ y → p * x / 1000 ≤ p * y / 1000
shares p x y h = omega (arith, mul-le-mul_left p h)

whole : (p j : ℕ) → j ≡ 0 → (p * (1000 - j) / 1000 ≡ p) × (p * (1000 + j) / 1000 ≡ p)
whole p j e = rw e (omega arith)

-- With a jitter of at most 1000 thousandths and a draw within it, the delay is within the jitter's
-- share of the plain delay on both sides; so it is not negative.
pub next_backoff_bounds :
    (key : String) (draw : ℤ) (b : ExponentialBackoff)
    → b.jitter ≤ 1000
    → pos_part draw ≤ b.jitter
    → neg_part draw ≤ b.jitter
    → (pos (plain_delay b (failures key b) * (1000 - b.jitter) / 1000)
        ≤ℤ (next_backoff key draw b).0)
      × ((next_backoff key draw b).0
          ≤ℤ pos (plain_delay b (failures key b) * (1000 + b.jitter) / 1000))
unfolding next_backoff
next_backoff_bounds key draw b j p n = elim (Bool-cases (nat_eq b.jitter 0)) [
  | inl e ↦ rw e (omega (arith, whole (plain_delay b (failures key b)) b.jitter (ground arith)))
  | inr e ↦ rw e (
      rw (scale_lem (plain_delay b (failures key b)) draw (omega arith)) (
        omega (
          arith,
          shares (plain_delay b (failures key b)) (1000 - b.jitter)
              (1000 + pos_part draw - neg_part draw) (omega arith),
          shares (plain_delay b (failures key b)) (1000 + pos_part draw - neg_part draw)
              (1000 + b.jitter) (omega arith),
        )))
]
