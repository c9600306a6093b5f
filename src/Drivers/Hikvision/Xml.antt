-- ===== src/Drivers/Hikvision/Xml.antt =====
-- internal/drivers/hikvision.go: `stripXMLNamespace`.
pub mod Prefixes
use cam_bus.Base.{
  ℕ, zero, suc, not, String, ◌<>◌, Option, none, some, List, [], ◌∷◌, ◌==◌, ◌&&◌, if◌then◌else◌,
}
use cam_bus.Base.Str.{is_char, is_empty, span, char_count, split, trim_suffix}
use cam_bus.Drivers.Digest.{is_word}

-- `\w+:` at the beginning of the text: the number of its characters
unfoldable pub word_colon : String → Option ℕ
word_colon s =
    let (word, rest) = span (λ c. not (is_word c)) s in
    elim rest [
      | String.[] ↦ none
      | String.◌∷◌ c _ ↦
          if is_char b':' c && not (is_empty word) then some (suc (char_count word)) else none
    ]

-- `/?\w+:` at the beginning of the text
unfoldable pub name_prefix : String → Option ℕ
unfolding word_colon
name_prefix String.[] = none
name_prefix (String.◌∷◌ c s) =
    if is_char b'/' c
    then elim (word_colon s) [ none ↦ none | some n ↦ some (suc n) ]
    else word_colon (String.◌∷◌ c s)

-- ReplaceAllString of `</?\w+:` by "<". The number counts the characters that the last match covers.
unfoldable pub replace_prefixes : ℕ → String → String
unfolding name_prefix
replace_prefixes n String.[] = ""
replace_prefixes (suc n) (String.◌∷◌ c s) = replace_prefixes n s
replace_prefixes zero (String.◌∷◌ c s) =
    let plain = String.◌∷◌ c (replace_prefixes zero s) in
    if is_char b'<' c
    then elim (name_prefix s) [ none ↦ plain | some n ↦ String.◌∷◌ c (replace_prefixes n s) ]
    else plain

-- What is written for a line; bufio.ScanLines drops a carriage return at its end.
unfoldable pub strip_line : String → String
unfolding replace_prefixes
strip_line line = replace_prefixes 0 (trim_suffix line "\r")

unfoldable pub strip_lines : List String → String
unfolding strip_line
strip_lines [] = ""
strip_lines (line ∷ lines) = strip_line line <> strip_lines lines

-- stripXMLNamespace. The scanner's buffer is as long as the text, so that without a line feed the
-- text is a token that is too long: nothing is scanned, and the text is returned as it is.
unfoldable pub strip_xml_namespace : String → String
unfolding strip_lines
strip_xml_namespace b = elim (split 10 b) [
  | line ∷ (next ∷ lines) ↦
      let out = strip_lines (line ∷ (next ∷ lines)) in if out == "" then b else out
  | _ ↦ b
]
