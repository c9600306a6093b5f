-- ===== src/Drivers/Hikvision/Xml/Prefixes.antt =====
-- internal/drivers/hikvision.go: what `stripXMLNamespace` makes of the tags of a line.
use Prim.Native.String.{[], ◌∷◌}
use text.Mathlib.TextLemmas.{nil-append, cons-append}
use cam_bus.Base.{ℕ, suc, false, not, String, ◌<>◌, some, ◌≡◌, refl, ap, sym, ◌∙◌, arith}
use cam_bus.Base.Str.{is_char, is_empty, char_count}
use cam_bus.Base.Str.Span.{Clear, span-append}
use cam_bus.Drivers.Digest.{is_word}
use cam_bus.Drivers.Hikvision.Xml.{word_colon, name_prefix, replace_prefixes}

-- A name of letters, digits and underscores, not empty.
abbrev pub Word : String → Type 0
Word name = Clear (λ c. not (is_word c)) name × (is_empty name ≡ false)

word_colon-prefix :
    (ns rest : String) → Word ns → word_colon (ns <> (":" ∷ rest)) ≡ some (suc (char_count ns))
unfolding word_colon is_word
word_colon-prefix ns rest (word, given) =
    let found = span-append (λ c. not (is_word c)) ns ":" rest word refl in
    rw (found, word_colon, found, given) refl

-- The characters that a match covers are skipped.
replace_prefixes-skip :
    (ns rest : String)
    → replace_prefixes (suc (char_count ns)) (ns <> (":" ∷ rest)) ≡ replace_prefixes 0 rest
unfolding replace_prefixes char_count
replace_prefixes-skip [] rest = ap (replace_prefixes 1) (nil-append (":" ∷ rest))
replace_prefixes-skip (c ∷ ns) rest =
    rw (cons-append c ns (":" ∷ rest), replace_prefixes) (replace_prefixes-skip ns rest)

colon-append : (rest : String) → ":" <> rest ≡ ":" ∷ rest
colon-append rest = cons-append ":" "" rest ∙ ap (λ t. ":" ∷ t) (nil-append rest)

name_prefix-Word :
    (ns rest : String) → Word ns → name_prefix (ns <> (":" ∷ rest)) ≡ some (suc (char_count ns))
unfolding name_prefix is_word
name_prefix-Word [] rest (word, given) = absurd (cc given)
name_prefix-Word (c ∷ ns) rest word =
    let no_slash : is_char b'/' c ≡ false = ground (arith, word.0.0) in
    let read = word_colon-prefix (c ∷ ns) rest word in
    rw (cons-append c ns (":" ∷ rest), name_prefix, no_slash, ← cons-append c ns (":" ∷ rest)) read

name_prefix-slash :
    (ns rest : String)
    → Word ns
    → name_prefix ("/" ∷ (ns <> (":" ∷ rest))) ≡ some (suc (suc (char_count ns)))
unfolding name_prefix
name_prefix-slash ns rest word = rw (word_colon-prefix ns rest word, name_prefix) refl

replace_prefixes_found :
    (s : String) (n : ℕ)
    → name_prefix s ≡ some n
    → replace_prefixes 0 ("<" ∷ s) ≡ "<" ∷ replace_prefixes n s
unfolding replace_prefixes
replace_prefixes_found s n found = rw (found, replace_prefixes) refl

replace_prefixes-slash :
    (n : ℕ) (s : String) → replace_prefixes (suc n) ("/" ∷ s) ≡ replace_prefixes n s
unfolding replace_prefixes
replace_prefixes-slash n s = refl

-- An opening and a closing tag with a prefix both become an opening tag: `</ns:tag>` loses its slash.
pub replace_prefixes-tags :
    (ns rest : String)
    → Word ns
    → (replace_prefixes 0 ("<" <> (ns <> (":" <> rest))) ≡ "<" <> replace_prefixes 0 rest)
      × (replace_prefixes 0 ("</" <> (ns <> (":" <> rest))) ≡ "<" <> replace_prefixes 0 rest)
replace_prefixes-tags ns rest word =
    let tail = ns <> (":" ∷ rest) in
    let skip = ap (λ t. "<" ∷ t) (replace_prefixes-skip ns rest) in
    let less = λ (t : String). cons-append "<" "" t ∙ ap (λ u. "<" ∷ u) (nil-append t) in
    let slash : "</" <> tail ≡ "<" ∷ ("/" ∷ tail) =
      cons-append "<" "/" tail
      ∙ ap (λ u. "<" ∷ u) (cons-append "/" "" tail ∙ ap (λ u. "/" ∷ u) (nil-append tail)) in
    let opened =
      replace_prefixes_found tail (suc (char_count ns)) (name_prefix-Word ns rest word) in
    let closed =
      replace_prefixes_found ("/" ∷ tail) (suc (suc (char_count ns)))
        (name_prefix-slash ns rest word) in
    let after_slash = replace_prefixes-slash (suc (char_count ns)) tail in
    rw colon-append (
      ap (replace_prefixes 0) (less tail) ∙ opened ∙ skip ∙ sym (less (replace_prefixes 0 rest)),
      ap (replace_prefixes 0) slash
          ∙ closed
          ∙ ap (λ t. "<" ∷ t) after_slash
          ∙ skip
          ∙ sym (less (replace_prefixes 0 rest)),
    )
