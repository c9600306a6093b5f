-- ===== src/Base/Str/Split.antt =====
-- Laws of splitting a text at a character.
use Prim.Native.Char.{Char}
use Prim.Native.Nat.{ℕ}
use Prim.Native.String.{String, [], ◌∷◌, ◌++◌ as ◌<>◌}
use mathlib.Core.Path.{◌≡◌, refl, ap, sym, ◌∙◌}
use mathlib.Core.Bool.{true, false}
use mathlib.Core.List.{List, [], ◌∷◌, ◌++◌}
use mathlib.Core.Logic.{inl, inr}
use text.Mathlib.TextLemmas.{append_assoc, append-nil, nil-append, cons-append}
use cam_bus.Base.Tests.{Bool-cases}
use cam_bus.Base.Lists.{All}
use cam_bus.Base.Str.{is_char, split, split_from, replace_char, join}

-- The character does not occur in the text.
abbrev pub Without : ℕ → String → Type 0
Without n [] = Unit
Without n (c ∷ s) = (is_char n c ≡ false) × Without n s

split_from-append :
    (n : ℕ) (cur s : String) (c : Char) (t : String)
    → is_char n c ≡ true
    → split_from n cur (s <> (c ∷ t)) ≡ split_from n cur s ++ split n t
unfolding split_from split
split_from-append n cur [] c t cut = rw (nil-append (c ∷ t), split_from, cut) refl
split_from-append n cur (d ∷ s) c t cut = elim (Bool-cases (is_char n d)) [
  | inl here ↦ rw (cons-append d s (c ∷ t), split_from, here, split_from-append n [] s c t cut) refl
  | inr other ↦
      rw
        (
          cons-append d s (c ∷ t),
          split_from,
          other,
          split_from-append n (cur <> (d ∷ [])) s c t cut,
        )
        refl
]

-- Two texts with the character between them are split one after the other.
pub split-append :
    (n : ℕ) (s : String) (c : Char) (t : String)
    → is_char n c ≡ true
    → split n (s <> (c ∷ t)) ≡ split n s ++ split n t
unfolding split
split-append n s c t cut = split_from-append n [] s c t cut

split_from-whole : (n : ℕ) (cur s : String) → Without n s → split_from n cur s ≡ (cur <> s) ∷ []
unfolding split_from
split_from-whole n cur [] h = ap (λ x. x ∷ []) (sym (append-nil cur))
split_from-whole n cur (c ∷ s) (other, h) =
    rw
      (
        other,
        split_from-whole n (cur <> (c ∷ [])) s h,
        append_assoc cur (c ∷ []) s,
        cons-append c [] s,
        nil-append s,
      )
      refl

pub split-whole : (n : ℕ) (s : String) → Without n s → split n s ≡ s ∷ []
unfolding split
split-whole n s h = split_from-whole n [] s h ∙ ap (λ x. x ∷ []) (nil-append s)

pub Without-append : (n : ℕ) (s t : String) → Without n s → Without n t → Without n (s <> t)
Without-append n [] t h k = rw (nil-append t) k
Without-append n (c ∷ s) t (other, h) k = rw (cons-append c s t) (other, Without-append n s t h k)

pub replace_char-Without : (n : ℕ) (t s : String) → Without n t → Without n (replace_char n t s)
unfolding replace_char
replace_char-Without n t [] h = tt
replace_char-Without n t (c ∷ s) h = elim (Bool-cases (is_char n c)) [
  | inl here ↦
      rw (here, replace_char)
        (Without-append n t (replace_char n t s) h (replace_char-Without n t s h))
  | inr other ↦ rw (other, replace_char) (other, replace_char-Without n t s h)
]

-- What was joined by a character that is in no part is split into the parts again.
pub split-join :
    (n : ℕ) (c : Char) (part : String) (parts : List String)
    → is_char n c ≡ true
    → All (Without n) (List.◌∷◌ part parts)
    → split n (join (c ∷ []) (List.◌∷◌ part parts)) ≡ List.◌∷◌ part parts
unfolding join
split-join n c part List.[] cut (h, _) = split-whole n part h
split-join n c part (List.◌∷◌ next parts) cut (h, hs) =
    let rest = join (c ∷ []) (List.◌∷◌ next parts) in
    rw
      (
        cons-append c [] rest,
        nil-append rest,
        split-append n part c rest cut,
        split-whole n part h,
        split-join n c next parts cut hs,
      )
      refl
