-- ===== src/Base/Str/Hex.antt =====
-- encoding/hex, and the integers that `fmt` pads with zeros.
use Prim.Native.Nat.{ℕ, ◌/◌, ◌%◌}
use Prim.Native.String.{String, [], ◌∷◌, ◌++◌, char_at}
use mathlib.Core.List.{List}
use cam_bus.Base.Tests.{ltb, if◌then◌else◌}
use cam_bus.Base.Str.Decimal.{show_nat}

-- hex.EncodeToString
unfoldable pub hex : List ℕ → String
hex List.[] = []
hex (List.◌∷◌ b bs) =
    char_at "0123456789abcdef" (b / 16 % 16) ∷ (char_at "0123456789abcdef" (b % 16) ∷ hex bs)

-- fmt.Sprintf with "%02d" and "%04d"
unfoldable pub show_two : ℕ → String
show_two n = if ltb n 10 then "0" ++ show_nat n else show_nat n

unfoldable pub show_four : ℕ → String
unfolding show_two
show_four n =
    if ltb n 100 then "00" ++ show_two n else if ltb n 1000 then "0" ++ show_nat n else show_nat n
