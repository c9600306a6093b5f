-- ===== src/FindFace/Names.antt =====
-- internal/findface/client.go: the names of the cards.
use mathlib.Core.Path.{subst}
use text.Mathlib.TextLemmas.{append-eq-nil_iff}
use cam_bus.Base.{
  String, ◌<>◌, Option, none, some, List, [], ◌∷◌, ◌≡◌, ◌≢◌, ◌==◌, refl, ◌∙◌, ap, inl, inr,
  Bool-cases, Option-cases, eq_iff, if-rule,
}
use cam_bus.Base.Str.{trim_space, is_empty}
use cam_bus.Base.Str.Decimal.{show_int}
use cam_bus.FindFace.{
  Client, Card, not_blank, text_member, first_given, card_texts, card_names, get_card_name,
}

abbrev NotBlank : Option String → Type 0
NotBlank none = Unit
NotBlank (some s) = s ≢ ""

abbrev AllNotBlank : List (Option String) → Type 0
AllNotBlank [] = Unit
AllNotBlank (o ∷ os) = NotBlank o × AllNotBlank os

not_blank-NotBlank : (o : Option String) → NotBlank (not_blank o)
unfolding not_blank
not_blank-NotBlank none = tt
not_blank-NotBlank (some s) = elim (Bool-cases (trim_space s == "")) [
  | inl blank ↦ rw (blank, not_blank) tt
  | inr given ↦
      rw (given, not_blank) (λ empty. let clash = (eq_iff (trim_space s) "").1 empty in cc)
]

first_given-NotBlank : (os : List (Option String)) → AllNotBlank os → NotBlank (first_given os)
unfolding first_given
first_given-NotBlank [] h = tt
first_given-NotBlank (none ∷ os) (_, h) = first_given-NotBlank os h
first_given-NotBlank (some s ∷ os) (given, _) = given

first_given-kept :
    {o : Option String} (os : List (Option String)) (s : String)
    → o ≡ some s
    → first_given (o ∷ os) ≡ some s
unfolding first_given
first_given-kept os s kept = rw (kept) refl

card_texts-AllNotBlank :
    (card : Card) (keys : List String) → AllNotBlank (card_texts not_blank card keys)
unfolding card_texts
card_texts-AllNotBlank card [] = tt
card_texts-AllNotBlank card (key ∷ keys) = (
  not_blank-NotBlank (text_member card.features key),
  (not_blank-NotBlank (text_member card.meta key), card_texts-AllNotBlank card keys),
)

card_names-AllNotBlank : (c : Client) (card : Card) → AllNotBlank (card_names c card)
unfolding card_names
card_names-AllNotBlank c card = (
  not_blank-NotBlank card.name,
  (
    if-rule NotBlank (c.name_field == "") (λ _. tt)
        (λ _. not_blank-NotBlank (text_member card.features c.name_field)),
    card_texts-AllNotBlank card ("name" ∷ "full_name" ∷ "fullname" ∷ "nome" ∷ []),
  ),
)

not_blank-trims : (s : String) → trim_space s ≢ "" → not_blank (some s) ≡ some (trim_space s)
unfolding not_blank
not_blank-trims s given = elim (Bool-cases (trim_space s == "")) [
  | inl blank ↦ absurd (given ((eq_iff (trim_space s) "").0 blank))
  | inr kept ↦ rw (kept) refl
]

-- What is made of the first text that is there is not empty.
name_of-NotBlank :
    (os : List (Option String)) (d : String)
    → AllNotBlank os
    → (elim (first_given os) [ some name ↦ name | none ↦ "card-" <> d ]) ≢ ""
name_of-NotBlank os d given = elim (Option-cases (first_given os)) [
  | inl unnamed ↦
      rw (unnamed) (λ empty. let clash = ap is_empty (append-eq-nil_iff.0 empty).0 in cc)
  | inr (name, named) ↦ rw (named) (subst NotBlank named (first_given-NotBlank os given))
]

-- Every card has a name that is not empty, and a card whose own name is not blank has that name,
-- trimmed.
pub get_card_name_given :
    (c : Client) (card : Card)
    → (get_card_name c (some card) ≢ "")
      × ((s : String)
          → card.name ≡ some s
          → trim_space s ≢ ""
          → get_card_name c (some card) ≡ trim_space s)
unfolding get_card_name card_names first_given
get_card_name_given c card = (
  name_of-NotBlank (card_names c card) (show_int card.id) (card_names-AllNotBlank c card),
  λ s own given.
      ap (λ o. elim o [ some name ↦ name | none ↦ "card-" <> show_int card.id ])
        (first_given-kept _ _ (ap not_blank own ∙ not_blank-trims s given)),
)
