-- ===== src/Uplink/Env.antt =====
-- internal/uplink/manager.go: settings read from the environment. A variable that is not set is "".
use cam_bus.Base.{
  Bool, true, false, String, Option, none, some, List, [], ◌∷◌, map, ◌==◌, if◌then◌else◌, ◌||◌, any,
  keep, not,
}
use cam_bus.Base.Int.{ℤ, is_positive}
use cam_bus.Base.Str.{trim_space, to_lower, fields_by, is_char, is_empty}
use cam_bus.Base.Str.Decimal.{scan_int}
use cam_bus.Uplink.Request.{normalize_always_on_key}

-- os.Getenv
abbrev pub Env : Type 0
Env = String → String

-- getenv
unfoldable pub getenv : Env → String → String → String
getenv env key def = if env key == "" then def else env key

-- the words that `getenvBool` knows
unfoldable pub bool_word : String → Option Bool
bool_word s =
    if any (λ w. w == s) ("1" ∷ "true" ∷ "yes" ∷ "y" ∷ "on" ∷ [])
    then some true
    else if any (λ w. w == s) ("0" ∷ "false" ∷ "no" ∷ "n" ∷ "off" ∷ [])
    then some false
    else none

abbrev or_default : Option Bool → Bool → Bool
or_default none def = def
or_default (some b) def = b

-- getenvBool
unfoldable pub getenv_bool : Env → String → Bool → Bool
unfolding bool_word
getenv_bool env key def =
    let raw = trim_space (env key) in
    if raw == "" then def else or_default (bool_word (to_lower raw)) def

abbrev positive_or : ℤ → Option ℤ → ℤ
positive_or def none = def
positive_or def (some x) = if is_positive x then x else def

-- getenvInt
unfoldable pub getenv_int : Env → String → ℤ → ℤ
getenv_int env key def =
    let v = trim_space (env key) in if v == "" then def else positive_or def (scan_int v)

-- parseListEnv: the keys of the set, repetitions included
unfoldable pub parse_list_env : String → List String
parse_list_env raw =
    keep (λ key. not (is_empty key))
      (map normalize_always_on_key (
        fields_by
          (λ r. is_char b',' r || is_char b';' r || is_char b' ' r || is_char 9 r || is_char 10 r)
          raw))
