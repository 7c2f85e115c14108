-- ===== src/Stamp/RoundTrip.antt =====
-- `time.Parse` gives back the instant that `stamp` formatted.
use native.Mathlib.Nat.{pow-suc}
use thin_pi.Prelude.{ℕ, zero, suc, ◌+◌, ◌*◌, ◌/◌, ◌%◌, ◌^◌, ◌<◌, ◌≡◌, arith}
use thin_pi.Stamp.{fraction, fraction_value, stamp, parse_stamp, second}

digit_bound : (n p : ℕ) → 0 < p → n < 10 * p → n % p < p
digit_bound n p h k = omega arith

recompose : (n p v : ℕ) → v ≡ n % p → n / p * p + v ≡ n
recompose n p v h = grind arith

ten_pos : (k : ℕ) → 0 < 10 ^ k
ten_pos zero = omega arith
ten_pos (suc k) = rw pow-suc (omega (arith, ten_pos k))

fraction_value-fraction : (k n : ℕ) → n < 10 ^ k → fraction_value k (fraction k n) ≡ n
unfolding fraction fraction_value
fraction_value-fraction zero n h = omega arith
fraction_value-fraction (suc k) n h = ground (
  arith,
  recompose n (10 ^ k) (fraction_value k (fraction k (n % 10 ^ k))),
  fraction_value-fraction k (n % 10 ^ k),
  ten_pos k,
)

-- Parsing the stamp of an instant gives the instant, to the nanosecond.
pub parse_stamp-stamp : (t : ℕ) → parse_stamp (stamp t) ≡ t
unfolding stamp parse_stamp
parse_stamp-stamp t = omega (arith, fraction_value-fraction 9 (t % second) (omega arith))
