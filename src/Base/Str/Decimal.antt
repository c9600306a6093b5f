-- ===== src/Base/Str/Decimal.antt =====
-- strconv.Atoi, fmt.Sscanf and fmt.Sprintf with "%d".
use Prim.Native.Char.{Char, code}
use Prim.Native.Nat.{ℕ, zero, suc, ◌+◌, ◌-◌, ◌*◌, ◌/◌, ◌%◌}
use Prim.Native.String.{String, [], ◌∷◌, ◌++◌, char_at}
use mathlib.Core.Bool.{Bool, true, false, ◌&&◌}
use mathlib.Core.Option.{Option, none, some}
use cam_bus.Base.Tests.{ltb, leb, if◌then◌else◌}
use cam_bus.Base.Int.{ℤ, pos, negsuc}
use cam_bus.Base.Str.{is_char}

abbrev pub digit : ℕ → String
digit n = char_at "0123456789" n ∷ []

-- Twenty digits are enough for an `int` of 64 bits.
unfoldable pub show_from : ℕ → ℕ → String
show_from zero n = []
show_from (suc f) n =
    let rest = show_from f (n / 10) ++ digit (n % 10) in if ltb n 10 then digit n else rest

unfoldable pub show_nat : ℕ → String
unfolding show_from
show_nat n = show_from 20 n

unfoldable pub show_int : ℤ → String
unfolding show_nat
show_int (pos n) = show_nat n
show_int (negsuc n) = "-" ++ show_nat (n + 1)

abbrev is_digit : Char → Bool
is_digit c = leb b'0' (code c) && leb (code c) b'9'

-- The number before the first character that is no digit, and what follows it.
digits_from : ℕ → String → ℕ × String
digits_from acc [] = (acc, [])
digits_from acc (c ∷ s) =
    let more = digits_from (acc * 10 + (code c - b'0')) s in
    if is_digit c then more else (acc, c ∷ s)

abbrev max_int : ℕ
max_int = 9223372036854775807

-- `none` where the number is out of the range of an `int`.
in_range : Bool → ℕ → Option ℤ
in_range false n = if leb n max_int then some (pos n) else none
in_range true zero = some (pos 0)
in_range true (suc n) = if leb n max_int then some (negsuc n) else none

starts_digit : String → Bool
starts_digit [] = false
starts_digit (c ∷ s) = is_digit c

-- The sign, and what follows it.
sign_of : String → Bool × String
sign_of [] = (false, [])
sign_of (c ∷ s) =
    if is_char b'-' c then (true, s) else if is_char b'+' c then (false, s) else (false, c ∷ s)

-- fmt.Sscanf(s, "%d", &x), for a text that does not begin with a space: what follows is not read.
unfoldable pub scan_int : String → Option ℤ
unfolding digits_from in_range starts_digit sign_of
scan_int s =
    let (minus, rest) = sign_of s in
    if starts_digit rest then in_range minus (digits_from 0 rest).0 else none

all_read : Bool → ℕ × String → Option ℤ
unfolding in_range
all_read minus (n, []) = in_range minus n
all_read minus (n, _ ∷ _) = none

-- strconv.Atoi: the whole text is the number.
unfoldable pub atoi : String → Option ℤ
unfolding digits_from starts_digit sign_of all_read
atoi s =
    let (minus, rest) = sign_of s in
    if starts_digit rest then all_read minus (digits_from 0 rest) else none
