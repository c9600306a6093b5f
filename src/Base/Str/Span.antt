-- ===== src/Base/Str/Span.antt =====
-- Laws of the beginnings of texts.
use Prim.Native.Char.{Char}
use Prim.Native.Nat.{suc}
use Prim.Native.String.{String, [], ◌∷◌, ◌++◌ as ◌<>◌}
use mathlib.Core.Path.{◌≡◌, refl, ap, sym, ◌∙◌}
use mathlib.Core.Bool.{Bool, true, false}
use text.Mathlib.TextLemmas.{nil-append, cons-append}
use cam_bus.Base.Str.{span, char_count, drop_prefix, drop_chars, to_lower, lower_char}

-- Every character of the text fails the test.
abbrev pub Clear : (Char → Bool) → String → Type 0
Clear stop [] = Unit
Clear stop (c ∷ s) = (stop c ≡ false) × Clear stop s

pub span-append :
    (stop : Char → Bool) (s : String) (c : Char) (t : String)
    → Clear stop s
    → stop c ≡ true
    → span stop (s <> (c ∷ t)) ≡ (s, c ∷ t)
unfolding span
span-append stop [] c t clear here = rw (nil-append (c ∷ t), span, here) refl
span-append stop (d ∷ s) c t (other, clear) here =
    rw (cons-append d s (c ∷ t), span, other, span-append stop s c t clear here) refl

pub drop_prefix-append : (s t : String) → drop_prefix (s <> t) s ≡ t
unfolding drop_prefix
drop_prefix-append [] t = nil-append t
drop_prefix-append (c ∷ s) t = rw (cons-append c s t, drop_prefix) (drop_prefix-append s t)

pub drop_chars-append : (s t : String) → drop_chars (char_count s) (s <> t) ≡ t
unfolding drop_chars char_count
drop_chars-append [] t = nil-append t
drop_chars-append (c ∷ s) t = rw (cons-append c s t, drop_chars) (drop_chars-append s t)

pub to_lower-append : (s t : String) → to_lower (s <> t) ≡ to_lower s <> to_lower t
unfolding to_lower
to_lower-append [] t = rw (nil-append t, nil-append (to_lower t)) refl
to_lower-append (c ∷ s) t =
    rw (cons-append c s t, to_lower, to_lower-append s t)
      (sym (cons-append (lower_char c) (to_lower s) (to_lower t)))

pub char_count-concat : (s : String) (c : Char) → char_count (s <> (c ∷ [])) ≡ suc (char_count s)
unfolding char_count
char_count-concat [] c = rw (nil-append (c ∷ [])) refl
char_count-concat (d ∷ s) c = rw (cons-append d s (c ∷ []), char_count, char_count-concat s c) refl

pub quote-append : (s : String) → "\"" <> s ≡ "\"" ∷ s
quote-append s = cons-append "\"" "" s ∙ ap (λ t. "\"" ∷ t) (nil-append s)
