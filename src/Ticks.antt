-- ===== src/Ticks.antt =====
-- internal/math.go: RTP clock ticks and durations, by 128-bit products and quotients.
-- A time.Duration is its 64-bit pattern, as uint64(t) reads it; `none` is a run-time panic.
use Prim.Native.Nat.{ℕ, ◌+◌, ◌*◌, ◌/◌, ◌%◌, ◌^◌, ◌≤◌, ◌<◌}
use native.Mathlib.Nat.{div-add-mod, mod-lt}
use gunk.Base.{◌≡◌, Option, none, some, arith, leb, if◌then◌else◌}

-- time.Second, in nanoseconds.
abbrev pub second : ℕ
second = 1000000000

abbrev u64_mod : ℕ
u64_mod = 2 ^ 64

-- bits.Mul64: the high and the low word of a product.
mul64 : ℕ → ℕ → ℕ × ℕ
mul64 x y = (x * y / u64_mod, x * y % u64_mod)

-- bits.Div64: it panics on y == 0 and on a quotient that does not fit.
div64 : ℕ → ℕ → ℕ → Option ℕ
div64 hi lo y = if leb y hi then none else some ((hi * u64_mod + lo) / y)

unfoldable pub to_ts : ℕ → ℕ → Option ℕ
unfolding mul64 div64
to_ts t clock_rate = let (hi, lo) = mul64 t clock_rate in div64 hi lo second

unfoldable pub from_ts : ℕ → ℕ → Option ℕ
unfolding mul64 div64
from_ts ts clock_rate = let (hi, lo) = mul64 ts second in div64 hi lo clock_rate

-- The two words put together are the product.
words : (n : ℕ) → n / u64_mod * u64_mod + n % u64_mod ≡ n
words n = omega arith

-- Below the overflow limit the conversion to a duration is the floor of ts * 10^9 / rate.
pub from_ts_eq :
    (ts rate : ℕ) → ts * second / u64_mod < rate → from_ts ts rate ≡ some (ts * second / rate)
unfolding from_ts
from_ts_eq ts rate h = ground (arith, words (ts * second))

-- From the limit on, bits.Div64 panics.
pub from_ts_panics : (ts rate : ℕ) → rate ≤ ts * second / u64_mod → from_ts ts rate ≡ none
unfolding from_ts
from_ts_panics ts rate h = ground arith

pub to_ts_eq : (t rate : ℕ) → t * rate / u64_mod < second → to_ts t rate ≡ some (t * rate / second)
unfolding to_ts
to_ts_eq t rate h = ground (arith, words (t * rate))

-- The floor of a quotient, times its divisor.
floor_bounds : (x y : ℕ) → 0 < y → (x / y * y ≤ x) × (x < x / y * y + y)
floor_bounds x y h =
    (omega (arith, div-add-mod x y, mod-lt x h), omega (arith, div-add-mod x y, mod-lt x h))

-- Ticks that are converted to a duration and back, at a rate of at most one tick a nanosecond and
-- below the overflow limit of FromTS, come back as they were or one tick less.
pub to_ts-from_ts :
    (ts rate : ℕ)
    → 0 < rate
    → rate ≤ second
    → ts * second / 2 ^ 64 < rate
    → (t u : ℕ) × (from_ts ts rate ≡ some t) × (to_ts t rate ≡ some u) × (u ≤ ts) × (ts ≤ u + 1)
to_ts-from_ts ts rate pos slow fits =
    let t = ts * second / rate in
    let (low, high) = floor_bounds (ts * second) rate pos in
    (
      t,
      t * rate / second,
      from_ts_eq ts rate fits,
      to_ts_eq t rate (omega arith),
      omega arith,
      omega arith,
    )
