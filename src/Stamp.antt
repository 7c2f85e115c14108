-- ===== src/Stamp.antt =====
-- controller/internal/app/store.go, `stamp`: times in UTC as RFC 3339 texts with nanoseconds.
-- A time is the number of nanoseconds since 1970-01-01T00:00:00Z. The first 19 characters of a
-- stamp (`2006-01-02T15:04:05`) have a fixed width and sort as the number of seconds does, for
-- the years up to 9999, so `sec` stands for them. The rest is kept as text: a fraction loses its
-- trailing zeros, and a whole second has no fraction at all.
pub mod RoundTrip
pub mod Order
use thin_pi.Prelude.{
  ℕ, zero, suc, ◌+◌, ◌*◌, ◌/◌, ◌%◌, ◌^◌, Bool, ◌&&◌, ◌||◌, List, [], ◌∷◌, ◌++◌, map, Option, none,
  some, Bytes, ltb, ◌==◌, if◌then◌else◌, text_lt,
}

abbrev pub second : ℕ
second = 1_000_000_000

abbrev pub minute : ℕ
minute = 60_000_000_000

pub record Stamp : Type 0 where
  pub sec : ℕ
  pub digits : List ℕ

-- The decimal fraction of `n` in `k` places, up to the last digit that is not 0.
unfoldable pub fraction : ℕ → ℕ → List ℕ
fraction zero n = []
fraction (suc k) n =
    let rest = fraction k (n % 10 ^ k) in if n == 0 then [] else (n / 10 ^ k) ∷ rest

-- stamp
unfoldable pub stamp : ℕ → Stamp
unfolding fraction
stamp t = record { sec = t / second; digits = fraction 9 (t % second) }

-- What follows the seconds in the text: `Z`, or a point, the digits and `Z`.
unfoldable pub suffix : List ℕ → Bytes
suffix [] = b'Z' ∷ []
suffix (d ∷ ds) = b'.' ∷ map (λ c. b'0' + c) (d ∷ ds) ++ (b'Z' ∷ [])

-- `a < b` between two TEXT columns that hold stamps.
unfoldable pub stamp_lt : Stamp → Stamp → Bool
unfolding suffix text_lt
stamp_lt a b = ltb a.sec b.sec || (a.sec == b.sec && text_lt (suffix a.digits) (suffix b.digits))

unfoldable pub fraction_value : ℕ → List ℕ → ℕ
fraction_value zero ds = 0
fraction_value (suc k) [] = 0
fraction_value (suc k) (d ∷ ds) = d * 10 ^ k + fraction_value k ds

-- time.Parse(time.RFC3339Nano, s)
unfoldable pub parse_stamp : Stamp → ℕ
unfolding fraction_value
parse_stamp s = s.sec * second + fraction_value 9 s.digits
