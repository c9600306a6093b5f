-- ===== src/Uplink/Container/Names.antt =====
-- internal/uplink/container/manager.go: `NameForCentralPath`.
use Prim.Native.Char.{Char, code}
use cam_bus.Base.{
  Bool, true, false, String, ◌<>◌, ◌==◌, ◌&&◌, ◌||◌, leb, nat_eq, if◌then◌else◌, ◌≡◌, refl, sym, ap,
  ◌∙◌, Bool-cases, if-rule, inl, inr,
}
use mathlib.Core.Path.{subst}
use text.Mathlib.TextLemmas.{cons-append, nil-append}
use cam_bus.Base.Str.{trim_space, trim_slashes, replace_char}

-- [a-zA-Z0-9_.-]
unfoldable pub is_name_char : Char → Bool
is_name_char c =
    let n = code c in
    (leb b'a' n && leb n b'z')
    || (leb b'A' n && leb n b'Z')
    || (leb b'0' n && leb n b'9')
    || nat_eq n b'_'
    || nat_eq n b'.'
    || nat_eq n b'-'

-- invalidNameChars.ReplaceAllString(s, "-"): each longest run of other characters becomes one dash.
-- The Boolean tells that a run is open.
unfoldable pub replace_runs : Bool → String → String
unfolding is_name_char
replace_runs open_run String.[] = ""
replace_runs open_run (String.◌∷◌ c s) =
    let kept = String.◌∷◌ c (replace_runs false s) in
    let first = "-" <> replace_runs true s in
    let later = replace_runs true s in
    if is_name_char c then kept else if open_run then later else first

-- NameForCentralPath
unfoldable pub name_for_central_path : String → String
unfolding replace_runs
name_for_central_path path =
    let sanitized = trim_slashes (trim_space path) in
    let named = if sanitized == "" then "default" else sanitized in
    "cam-bus-uplink-" <> replace_runs false (replace_char b'/' "-" named)

-- Every character of the text may stand in a container's name.
abbrev pub IsName : String → Type 0
IsName String.[] = Unit
IsName (String.◌∷◌ c s) = (is_name_char c ≡ true) × IsName s

replace_runs-IsName : (open_run : Bool) (s : String) → IsName (replace_runs open_run s)
unfolding replace_runs
replace_runs-IsName open_run String.[] = tt
replace_runs-IsName open_run (String.◌∷◌ c s) = elim (Bool-cases (is_name_char c)) [
  | inl good ↦ rw (good, replace_runs) (good, replace_runs-IsName false s)
  | inr other ↦
      rw (other, replace_runs)
        (if-rule IsName open_run (λ _. replace_runs-IsName true s)
          (λ _.
            subst IsName
              (sym (
                cons-append "-" "" (replace_runs true s)
                ∙ ap (λ x. String.◌∷◌ "-" x) (nil-append (replace_runs true s))))
              (refl, replace_runs-IsName true s)))
]

-- the name of an uplink's container without its fixed beginning
unfoldable pub suffix_for : String → String
unfolding replace_runs
suffix_for path =
    let sanitized = trim_slashes (trim_space path) in
    replace_runs false (replace_char b'/' "-" (if sanitized == "" then "default" else sanitized))

-- A container's name is a fixed beginning and characters that docker allows in a name, whatever the
-- central path is.
name_for_central_path-IsName :
    (path : String)
    → (name_for_central_path path ≡ "cam-bus-uplink-" <> suffix_for path) × IsName (suffix_for path)
unfolding name_for_central_path suffix_for
name_for_central_path-IsName path =
    let sanitized = trim_slashes (trim_space path) in
    (
      refl,
      replace_runs-IsName false
          (replace_char b'/' "-" (if sanitized == "" then "default" else sanitized)),
    )
