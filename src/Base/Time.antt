-- ===== src/Base/Time.antt =====
-- time.Time in UTC, from the year 1 on: nanoseconds since the zero time, 1 January of the year 1.
use Prim.Native.Nat.{ℕ, ◌+◌, ◌-◌, ◌*◌, ◌/◌, ◌%◌}
use mathlib.Core.Bool.{Bool, ◌&&◌, ◌||◌, not}
use mathlib.Core.List.{List, [], ◌∷◌}
use cam_bus.Base.Tests.{ltb, nat_eq, if◌then◌else◌}
use cam_bus.Base.Int.{ℤ, wrap_int64}

-- t.UnixNano(): 1970 began 62135596800 seconds after the zero time, and the int64 wraps around.
unfoldable pub unix_nano : ℕ → ℤ
unix_nano t = wrap_int64 (t + 4 * 18446744073709551616 - 62135596800000000000)

min : ℕ → ℕ → ℕ
min a b = if ltb a b then a else b

is_leap : ℕ → Bool
is_leap y = nat_eq (y % 4) 0 && (not (nat_eq (y % 100) 0) || nat_eq (y % 400) 0)

-- The month and the day of the month, for a day counted from 0 on in what is left of the year.
month_from : ℕ → List ℕ → ℕ → ℕ × ℕ
month_from m [] d = (m, d + 1)
month_from m (days ∷ more) d =
    let later = month_from (m + 1) more (d - days) in if ltb d days then (m, d + 1) else later

-- t.Year(), t.Month() and t.Day()
unfoldable pub date : ℕ → ℕ × (ℕ × ℕ)
unfolding min is_leap month_from
date t =
    let d = t / 86400000000000 in
    let d400 = d % 146097 in
    let n100 = min (d400 / 36524) 3 in
    let d100 = d400 - n100 * 36524 in
    let n4 = d100 / 1461 in
    let d4 = d100 % 1461 in
    let n1 = min (d4 / 365) 3 in
    let year = d / 146097 * 400 + n100 * 100 + n4 * 4 + n1 + 1 in
    let february : ℕ = if is_leap year then 29 else 28 in
    (
      year,
      month_from 1 (31 ∷ february ∷ 31 ∷ 30 ∷ 31 ∷ 30 ∷ 31 ∷ 31 ∷ 30 ∷ 31 ∷ 30 ∷ 31 ∷ [])
          (d4 - n1 * 365),
    )
