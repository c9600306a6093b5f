-- ===== src/Base/Str.antt =====
-- What the program uses of Go's `strings`. A Go string here is a valid UTF-8 text: its runes.
-- Case is mapped for the runes below U+0100, which holds every letter of the program's own texts.
pub mod Trim
pub mod Split
pub mod Decimal
pub mod Hex
pub mod Span
pub mod Digits
use Prim.Native.Char.{Char, code}
use Prim.Native.Nat.{ℕ, zero, suc, ◌-◌, ◌*◌}
use Prim.Native.String.{String, [], ◌∷◌, ◌++◌, char_at, find, len, slice}
use mathlib.Core.Bool.{Bool, true, false, not, ◌&&◌, ◌||◌}
use mathlib.Core.Option.{Option, none, some}
use mathlib.Core.List.{List, [], ◌∷◌}
use text.Mathlib.Text.{◌==◌, starts_with}
use cam_bus.Base.Tests.{ltb, leb, nat_eq, if◌then◌else◌}

-- unicode.IsSpace
unfoldable pub is_space : Char → Bool
is_space c =
    let n = code c in
    (leb 9 n && leb n 13)
    || nat_eq n 32
    || nat_eq n 133
    || nat_eq n 160
    || nat_eq n 5760
    || (leb 8192 n && leb n 8202)
    || nat_eq n 8232
    || nat_eq n 8233
    || nat_eq n 8239
    || nat_eq n 8287
    || nat_eq n 12288

abbrev pub is_char : ℕ → Char → Bool
is_char n c = nat_eq (code c) n

abbrev pub is_empty : String → Bool
is_empty [] = true
is_empty (_ ∷ _) = false

-- strings.TrimLeftFunc, TrimRightFunc, TrimFunc
unfoldable pub trim_left_by : (Char → Bool) → String → String
trim_left_by p [] = []
trim_left_by p (c ∷ s) = let rest = trim_left_by p s in if p c then rest else c ∷ s

unfoldable pub trim_right_by : (Char → Bool) → String → String
trim_right_by p [] = []
trim_right_by p (c ∷ s) =
    let rest = trim_right_by p s in if is_empty rest && p c then [] else c ∷ rest

unfoldable pub trim_by : (Char → Bool) → String → String
unfolding trim_left_by trim_right_by
trim_by p s = trim_right_by p (trim_left_by p s)

-- strings.TrimSpace
unfoldable pub trim_space : String → String
unfolding trim_by is_space
trim_space s = trim_by is_space s

-- strings.Trim(s, "/")
unfoldable pub trim_slashes : String → String
unfolding trim_by
trim_slashes s = trim_by (is_char b'/') s

-- strings.HasPrefix, strings.TrimPrefix
unfoldable pub drop_prefix : String → String → String
drop_prefix s [] = s
drop_prefix [] (_ ∷ _) = []
drop_prefix (_ ∷ s) (_ ∷ t) = drop_prefix s t

unfoldable pub trim_prefix : String → String → String
unfolding drop_prefix
trim_prefix s t = if starts_with s t then drop_prefix s t else s

unfoldable pub reverse_onto : String → String → String
reverse_onto [] acc = acc
reverse_onto (c ∷ s) acc = reverse_onto s (c ∷ acc)

-- strings.HasSuffix, strings.TrimSuffix
unfoldable pub has_suffix : String → String → Bool
unfolding reverse_onto
has_suffix s t = starts_with (reverse_onto s []) (reverse_onto t [])

unfoldable pub trim_suffix : String → String → String
unfolding has_suffix drop_prefix
trim_suffix s t = if has_suffix s t then reverse_onto (drop_prefix (reverse_onto s []) t) [] else s

-- The longest beginning whose characters all fail the test, and what follows it.
unfoldable pub span : (Char → Bool) → String → String × String
span stop [] = ([], [])
span stop (c ∷ s) =
    let more : String × String = (c ∷ (span stop s).0, (span stop s).1) in
    if stop c then ([], c ∷ s) else more

-- The number of characters, and the text without as many of them.
unfoldable pub char_count : String → ℕ
char_count [] = 0
char_count (c ∷ s) = suc (char_count s)

unfoldable pub drop_chars : ℕ → String → String
drop_chars zero s = s
drop_chars (suc n) [] = []
drop_chars (suc n) (c ∷ s) = drop_chars n s

-- What follows the first occurrence of `t` in `s`, if `t` is not empty.
unfoldable pub after_first : String → String → Option String
unfolding drop_prefix
after_first [] t = none
after_first (c ∷ s) t =
    let later = after_first s t in
    if starts_with (c ∷ s) t then some (drop_prefix (c ∷ s) t) else later

-- strings.ToLower, strings.EqualFold
unfoldable pub lower_char : Char → Char
lower_char c =
    let n = code c in
    if leb 65 n && leb n 90
    then char_at "abcdefghijklmnopqrstuvwxyz" (n - 65)
    else if leb 192 n && leb n 222 && not (nat_eq n 215)
    then char_at "àáâãäåæçèéêëìíîïðñòóôõö÷øùúûüýþ" (2 * (n - 192))
    else c

unfoldable pub to_lower : String → String
unfolding lower_char
to_lower [] = []
to_lower (c ∷ s) = lower_char c ∷ to_lower s

unfoldable pub equal_fold : String → String → Bool
unfolding to_lower
equal_fold s t = to_lower s == to_lower t

-- strings.Contains
unfoldable pub contains : String → String → Bool
contains s t = leb (find s t) (len s)

-- strings.Split at one ASCII character
split_from : ℕ → String → String → List String
split_from n cur [] = cur ∷ []
split_from n cur (c ∷ s) =
    let cut : List String = cur ∷ split_from n [] s in
    let grow = split_from n (cur ++ (c ∷ [])) s in if is_char n c then cut else grow

unfoldable pub split : ℕ → String → List String
unfolding split_from
split n s = split_from n [] s

-- strings.FieldsFunc, strings.Fields
fields_from : (Char → Bool) → String → String → List String
fields_from p cur [] = if is_empty cur then [] else cur ∷ []
fields_from p cur (c ∷ s) =
    let skip = fields_from p [] s in
    let cut : List String = cur ∷ fields_from p [] s in
    let grow = fields_from p (cur ++ (c ∷ [])) s in
    if p c then (if is_empty cur then skip else cut) else grow

unfoldable pub fields_by : (Char → Bool) → String → List String
unfolding fields_from
fields_by p s = fields_from p [] s

unfoldable pub fields : String → List String
unfolding fields_by is_space
fields s = fields_by is_space s

-- strings.Join
unfoldable pub join : String → List String → String
join sep [] = []
join sep (s ∷ []) = s
join sep (s ∷ (t ∷ ss)) = s ++ sep ++ join sep (t ∷ ss)

-- strings.ReplaceAll of one character by a text
unfoldable pub replace_char : ℕ → String → String → String
replace_char n t [] = []
replace_char n t (c ∷ s) = if is_char n c then t ++ replace_char n t s else c ∷ replace_char n t s
