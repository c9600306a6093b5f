-- ===== src/Drivers/Digest/Reading.antt =====
-- internal/drivers/hikvision.go: `parseDigestAuthHeader` of a well-formed challenge.
use Prim.Native.Char.{Char}
use Prim.Native.String.{[], ◌∷◌}
use text.Mathlib.TextLemmas.{append-nil, nil-append, cons-append, append_assoc}
use text.Mathlib.TextPositions.{starts_with-append}
use cam_bus.Base.{
  false, String, ◌<>◌, none, some, ok, List, ◌≡◌, refl, ap, sym, ◌∙◌, not, ◌==◌, eq_iff, Bool-cases,
  inl, inr,
}
use cam_bus.Base.Str.{
  span, char_count, drop_chars, is_char, is_empty, trim_space, is_space, to_lower,
}
use cam_bus.Base.Str.Span.{
  Clear, span-append, drop_prefix-append, drop_chars-append, to_lower-append, char_count-concat,
  quote-append,
}
use cam_bus.Base.Str.Trim.{Ends, trim_by-eq_of_clean, is_empty-append, Ends-append, Starts-append}
use cam_bus.Drivers.Digest.{
  DigestChallenge, is_word, match_at, find_all, set_fields, parse_digest_auth_header,
}

-- key="value"
abbrev pub field : String → String → String
field key value = key <> ("=\"" <> (value <> "\""))

-- A value that can stand between quotes.
abbrev pub Quotable : String → Type 0
Quotable v = Clear (is_char 34) v × (is_empty v ≡ false)

find_all-skip : (s t : String) → find_all (char_count s) (s <> t) ≡ find_all 0 t
unfolding find_all char_count
find_all-skip [] t = ap (find_all 0) (nil-append t)
find_all-skip (c ∷ s) t = rw (cons-append c s t, find_all) (find_all-skip s t)

match_at_field :
    (key value rest : String)
    → Clear (λ c. not (is_word c)) key
    → is_empty key ≡ false
    → Quotable value
    → match_at (key <> ("=\"" <> (value <> ("\"" ∷ rest)))) ≡ some (key, value)
unfolding match_at is_word
match_at_field key value rest word key_given (clear, value_given) =
    let tail = value <> ("\"" ∷ rest) in
    let open_quote : "=\"" <> tail ≡ "=" ∷ ("\"" <> tail) = cons-append "=" "\"" tail in
    let found = span-append (λ c. not (is_word c)) key "=" ("\"" <> tail) word refl in
    rw
      (
        open_quote,
        match_at,
        found,
        ← open_quote,
        starts_with-append "=\"" tail,
        drop_prefix-append "=\"" tail,
        span-append (is_char 34) value "\"" rest clear refl,
        key_given,
        value_given,
      )
      refl

find_all_found :
    (c : Char) (s key value : String)
    → match_at (c ∷ s) ≡ some (key, value)
    → find_all 0 (c ∷ s) ≡ List.◌∷◌ (key, value) (find_all (char_count (key <> ("=\"" <> value))) s)
unfolding find_all
find_all_found c s key value found = rw (found, find_all) refl

find_all-field :
    (key value rest : String)
    → Clear (λ c. not (is_word c)) key
    → is_empty key ≡ false
    → Quotable value
    → find_all 0 (field key value <> rest) ≡ List.◌∷◌ (key, value) (find_all 0 rest)
unfolding char_count
find_all-field [] value rest word key_given quotable = absurd (cc key_given)
find_all-field (c ∷ key) value rest word key_given quotable =
    let inner = key <> ("=\"" <> value) in
    let tail = key <> ("=\"" <> (value <> ("\"" ∷ rest))) in
    let shape : field (c ∷ key) value <> rest ≡ c ∷ tail =
      rw
        (
          append_assoc (c ∷ key) ("=\"" <> (value <> "\"")) rest,
          append_assoc "=\"" (value <> "\"") rest,
          append_assoc value "\"" rest,
          quote-append rest,
          cons-append c key ("=\"" <> (value <> ("\"" ∷ rest))),
        )
        refl in
    let found = match_at_field (c ∷ key) value rest word key_given quotable in
    let found' : match_at (c ∷ tail) ≡ some (c ∷ key, value) =
      rw (← cons-append c key ("=\"" <> (value <> ("\"" ∷ rest)))) found in
    let regrouped : tail ≡ (inner <> "\"") <> rest =
      rw
        (
          append_assoc inner "\"" rest,
          append_assoc key ("=\"" <> value) ("\"" <> rest),
          append_assoc "=\"" value ("\"" <> rest),
          quote-append rest,
        )
        refl in
    let count : char_count ((c ∷ key) <> ("=\"" <> value)) ≡ char_count (inner <> "\"") =
      rw (cons-append c key ("=\"" <> value), char_count-concat inner "\"") refl in
    rw
      (
        shape,
        find_all_found c tail (c ∷ key) value found',
        count,
        regrouped,
        find_all-skip (inner <> "\"") rest,
      )
      refl

find_all-none :
    (c : Char) (s : String) → match_at (c ∷ s) ≡ none → find_all 0 (c ∷ s) ≡ find_all 0 s
unfolding find_all
find_all-none c s lost = rw (lost, find_all) refl

match_at_other : (c : Char) (s : String) → is_word c ≡ false → match_at (c ∷ s) ≡ none
unfolding match_at span
match_at_other c s other = rw other refl

find_all_separator : (s : String) → find_all 0 (", " <> s) ≡ find_all 0 s
unfolding is_word
find_all_separator s =
    rw (cons-append "," " " s, cons-append " " "" s, nil-append s)
      (find_all-none "," (" " ∷ s) (match_at_other "," (" " ∷ s) refl)
        ∙ find_all-none " " s (match_at_other " " s refl))

-- What a camera sends as "WWW-Authenticate".
abbrev pub fields_text : DigestChallenge → String
fields_text d =
    field "realm" d.realm <> (", " <> (field "nonce" d.nonce <> (", " <> field "qop" d.qop)))

abbrev pub challenge_text : DigestChallenge → String
challenge_text d = "Digest " <> fields_text d

find_all_fields :
    (d : DigestChallenge)
    → Quotable d.realm
    → Quotable d.nonce
    → Quotable d.qop
    → find_all 0 (fields_text d)
      ≡ List.◌∷◌ ("realm", d.realm) (List.◌∷◌ ("nonce", d.nonce) (List.◌∷◌ ("qop", d.qop) List.[]))
unfolding is_word find_all
find_all_fields d realm nonce qop =
    rw
      (
        find_all-field "realm" d.realm
            (", " <> (field "nonce" d.nonce <> (", " <> field "qop" d.qop)))
            (refl, (refl, (refl, (refl, (refl, tt))))) refl realm,
        find_all_separator (field "nonce" d.nonce <> (", " <> field "qop" d.qop)),
        find_all-field "nonce" d.nonce (", " <> field "qop" d.qop)
            (refl, (refl, (refl, (refl, (refl, tt))))) refl nonce,
        find_all_separator (field "qop" d.qop),
        sym (append-nil (field "qop" d.qop)),
        find_all-field "qop" d.qop "" (refl, (refl, (refl, tt))) refl qop,
      )
      refl

field_given : (key value : String) → is_empty (field key value) ≡ false
field_given key value =
    is_empty-append key ("=\"" <> (value <> "\""))
      (is_empty-append "=\"" (value <> "\"") (is_empty-append value "\"" refl))

field-Ends : (key value : String) → Ends is_space (field key value)
unfolding is_space
field-Ends key value =
    let inner = is_empty-append value "\"" refl in
    Ends-append is_space key ("=\"" <> (value <> "\""))
      (is_empty-append "=\"" (value <> "\"") inner)
      (Ends-append is_space "=\"" (value <> "\"") inner
        (Ends-append is_space value "\"" refl (refl, tt)))

trim_fields : (d : DigestChallenge) → trim_space (fields_text d) ≡ fields_text d
unfolding trim_space is_space
trim_fields d =
    let last = field "qop" d.qop in
    let from_nonce = field "nonce" d.nonce <> (", " <> last) in
    let last_given = is_empty-append ", " last (field_given "qop" d.qop) in
    let nonce_given = is_empty-append (field "nonce" d.nonce) (", " <> last) last_given in
    let last_ends =
      Ends-append is_space ", " last (field_given "qop" d.qop) (field-Ends "qop" d.qop) in
    trim_by-eq_of_clean is_space (fields_text d)
      (Starts-append is_space (field "realm" d.realm) (", " <> from_nonce)
        (field_given "realm" d.realm)
        (Starts-append is_space "realm" ("=\"" <> (d.realm <> "\"")) refl refl))
      (Ends-append is_space (field "realm" d.realm) (", " <> from_nonce)
        (is_empty-append ", " from_nonce nonce_given)
        (Ends-append is_space ", " from_nonce nonce_given
          (Ends-append is_space (field "nonce" d.nonce) (", " <> last) last_given last_ends)))

given-ne-nil : (v : String) → is_empty v ≡ false → v == "" ≡ false
given-ne-nil v given = elim (Bool-cases (v == "")) [
  | inl blank ↦ let none_left = ap is_empty ((eq_iff v "").0 blank) in cc
  | inr other ↦ other
]

-- A challenge whose values are not empty and hold no quotation mark is read as it was written.
pub parse_digest_auth_header-challenge_text :
    (d : DigestChallenge)
    → Quotable d.realm
    → Quotable d.nonce
    → Quotable d.qop
    → parse_digest_auth_header (challenge_text d) ≡ ok d
unfolding parse_digest_auth_header to_lower set_fields char_count
parse_digest_auth_header-challenge_text d realm nonce qop =
    let dropped : drop_chars 7 (challenge_text d) ≡ fields_text d =
      drop_chars-append "Digest " (fields_text d) in
    rw
      (
        to_lower-append "Digest " (fields_text d),
        starts_with-append "digest " (to_lower (fields_text d)),
        dropped,
        trim_fields d,
        find_all_fields d realm nonce qop,
        parse_digest_auth_header,
      )
      (rw (given-ne-nil d.realm realm.1, given-ne-nil d.nonce nonce.1, given-ne-nil d.qop qop.1)
        refl)
