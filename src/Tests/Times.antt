-- ===== src/Tests/Times.antt =====
-- Runs of the clock and of the number formats.
use cam_bus.Base.{ℕ, ◌≡◌, refl, ◌*◌, ◌+◌, [], ◌∷◌}
use cam_bus.Base.Int.{pos, negsuc}
use cam_bus.Base.Time.{unix_nano, date}
use cam_bus.Base.Str.Hex.{hex, show_two, show_four}

abbrev second : ℕ
second = 1000000000

date_epoch : date (62135596800 * second) ≡ (1970, (1, 1))
unfolding date
date_epoch = refl

date_leap : date ((62135596800 + 1709164800) * second) ≡ (2024, (2, 29))
unfolding date
date_leap = refl

date_year_end : date ((62135596800 + 1735689599) * second) ≡ (2024, (12, 31))
unfolding date
date_year_end = refl

nano_epoch : unix_nano (62135596800 * second + 7) ≡ pos 7
unfolding unix_nano
nano_epoch = refl

nano_before : unix_nano (62135596799 * second) ≡ negsuc 999999999
unfolding unix_nano
nano_before = refl

hex_bytes : hex (0 ∷ 255 ∷ 26 ∷ []) ≡ "00ff1a"
unfolding hex
hex_bytes = refl

padded : show_four 2024 ≡ "2024"
unfolding show_four cam_bus.Base.Str.Decimal.show_nat
padded = refl

padded_two : show_two 7 ≡ "07"
unfolding show_two cam_bus.Base.Str.Decimal.show_nat
padded_two = refl
