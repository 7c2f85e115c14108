-- ===== src/Stamp/Order.antt =====
-- How the texts of two stamps compare, which is what the SQL conditions on times test.
use thin_pi.Prelude.{ℕ, suc, ◌+◌, ◌*◌, ◌/◌, ◌%◌, ◌^◌, ◌≤◌, ◌<◌, ◌≡◌, true, false, List, ◌∷◌, arith}
use thin_pi.Stamp.{fraction, stamp, stamp_lt, second}

-- Stamps a second or more apart compare as their instants do.
pub stamp_lt-second_apart :
    (t u : ℕ)
    → t + second ≤ u
    → (stamp_lt (stamp t) (stamp u) ≡ true) × (stamp_lt (stamp u) (stamp t) ≡ false)
unfolding stamp stamp_lt
stamp_lt-second_apart t u h = ground arith

fraction_pos : (k n : ℕ) → 0 < n → (d : ℕ) × (ds : List ℕ) × (fraction (suc k) n ≡ d ∷ ds)
unfolding fraction
fraction_pos k n h = (n / 10 ^ k, fraction k (n % 10 ^ k), ground arith)

-- Within one second they do not: a whole second is written with no fraction, and its text sorts
-- after the text of every later instant of that second.
pub stamp_lt-whole_second :
    (s d : ℕ) → 0 < d → d < second → stamp_lt (stamp (s * second + d)) (stamp (s * second)) ≡ true
unfolding stamp stamp_lt
stamp_lt-whole_second s d pos small =
    let (c, cs, e) = fraction_pos 8 d pos in
    let sec_eq : (s * second + d) / second ≡ s = omega arith in
    let sec_eq' : s * second / second ≡ s = omega arith in
    let low : (s * second + d) % second ≡ d = omega arith in
    let low' : s * second % second ≡ 0 = omega arith in
    rw (sec_eq, sec_eq', low, low', e) (ground arith)
