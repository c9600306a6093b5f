-- ===== src/Base/Str/Trim.antt =====
-- Laws of trimming.
use Prim.Native.Char.{Char}
use Prim.Native.String.{String, [], ◌∷◌, ◌++◌ as ◌<>◌}
use text.Mathlib.TextLemmas.{nil-append, cons-append}
use mathlib.Core.Path.{◌≡◌, refl, ap, ◌∙◌}
use mathlib.Core.Bool.{Bool, false, ◌&&◌}
use native.Mathlib.Omega.{arith}
use cam_bus.Base.Str.{
  is_empty, is_space, is_char, trim_left_by, trim_right_by, trim_by, trim_space, trim_slashes,
}

-- The first character fails the test.
abbrev pub Starts : (Char → Bool) → String → Type 0
Starts p [] = Unit
Starts p (c ∷ s) = p c ≡ false

-- The last character fails the test.
abbrev pub Ends : (Char → Bool) → String → Type 0
Ends p [] = Unit
Ends p (c ∷ s) = (is_empty s && p c ≡ false) × Ends p s

module _ (p : Char → Bool) where
  trim_left_by-Starts : (s : String) → Starts p (trim_left_by p s)
  unfolding trim_left_by
  trim_left_by-Starts [] = tt
  trim_left_by-Starts (c ∷ s) = ground (arith, trim_left_by-Starts s)

  trim_right_by-Ends : (s : String) → Ends p (trim_right_by p s)
  unfolding trim_right_by
  trim_right_by-Ends [] = tt
  trim_right_by-Ends (c ∷ s) = ground (arith, trim_right_by-Ends s)

  trim_right_by-Starts : (s : String) → Starts p s → Starts p (trim_right_by p s)
  unfolding trim_right_by
  trim_right_by-Starts [] h = tt
  trim_right_by-Starts (c ∷ s) h = ground arith

  trim_left_by-eq_of_Starts : (s : String) → Starts p s → trim_left_by p s ≡ s
  unfolding trim_left_by
  trim_left_by-eq_of_Starts [] h = refl
  trim_left_by-eq_of_Starts (c ∷ s) h = rw h

  trim_right_by-eq_of_Ends : (s : String) → Ends p s → trim_right_by p s ≡ s
  unfolding trim_right_by
  trim_right_by-eq_of_Ends [] h = refl
  trim_right_by-eq_of_Ends (c ∷ s) (h, hs) = rw (trim_right_by-eq_of_Ends s hs, h)

  pub trim_by-Starts : (s : String) → Starts p (trim_by p s)
  unfolding trim_by
  trim_by-Starts s = trim_right_by-Starts (trim_left_by p s) (trim_left_by-Starts s)

  pub trim_by-Ends : (s : String) → Ends p (trim_by p s)
  unfolding trim_by
  trim_by-Ends s = trim_right_by-Ends (trim_left_by p s)

  pub trim_by-eq_of_clean : (s : String) → Starts p s → Ends p s → trim_by p s ≡ s
  unfolding trim_by
  trim_by-eq_of_clean s h k =
      ap (trim_right_by p) (trim_left_by-eq_of_Starts s h) ∙ trim_right_by-eq_of_Ends s k

  pub trim_by_idem : (s : String) → trim_by p (trim_by p s) ≡ trim_by p s
  trim_by_idem s = trim_by-eq_of_clean (trim_by p s) (trim_by-Starts s) (trim_by-Ends s)

pub trim_space_idem : (s : String) → trim_space (trim_space s) ≡ trim_space s
unfolding trim_space
trim_space_idem s = trim_by_idem is_space s

pub trim_slashes_idem : (s : String) → trim_slashes (trim_slashes s) ≡ trim_slashes s
unfolding trim_slashes
trim_slashes_idem s = trim_by_idem (is_char b'/') s

pub is_empty-append : (s t : String) → is_empty t ≡ false → is_empty (s <> t) ≡ false
is_empty-append [] t h = rw (nil-append t) h
is_empty-append (c ∷ s) t h = rw (cons-append c s t) refl

-- A text ends as its second part does, and starts as its first part does.
pub Ends-append : (p : Char → Bool) (s t : String) → is_empty t ≡ false → Ends p t → Ends p (s <> t)
Ends-append p [] t h ends = rw (nil-append t) ends
Ends-append p (c ∷ s) t h ends =
    rw (cons-append c s t, is_empty-append s t h) (refl, Ends-append p s t h ends)

pub Starts-append :
    (p : Char → Bool) (s t : String) → is_empty s ≡ false → Starts p s → Starts p (s <> t)
Starts-append p [] t h starts = absurd (cc h)
Starts-append p (c ∷ s) t h starts = rw (cons-append c s t) starts
