-- ===== src/MediaMtx/Shell.antt =====
-- The words that a POSIX shell reads from a command line, and the quoting of `shellQuote`.
use Prim.Native.Char.{Char, code}
use Prim.Native.String.{String, [], ◌∷◌, ◌++◌ as ◌<>◌}
use text.Mathlib.TextLemmas.{cons-append, nil-append, append-nil, append_assoc}
use text.Mathlib.TextEquality.{Char-path}
use cam_bus.Base.{
  ℕ, Bool, true, Option, none, some, List, [], ◌∷◌, ◌≡◌, refl, sym, ap, ◌∙◌, arith, Bool-cases, inl,
  inr, if◌then◌else◌, ◌==◌, ◌||◌, eq_iff,
}
use cam_bus.Base.Str.{is_char, replace_char, join}
use cam_bus.MediaMtx.Config.{shell_quote, join_command_args}

-- Where the lexer stands: between two words, or in one, bare or in quotes.
data Place : Type 0 where
  between bare single double : Place

cons_word : String → Option (List String) → Option (List String)
cons_word w none = none
cons_word w (some ws) = some (w ∷ ws)

-- A character with a meaning of its own in double quotes, which the lexer refuses there.
abbrev special : Char → Bool
special c = is_char b'$' c || is_char b'`' c || is_char b'\\' c

-- The words of a command line with single and double quotes; `none` where a quote is left open. A
-- bare word is taken literally.
words_from : Place → String → String → Option (List String)
unfolding cons_word
words_from between cur [] = some []
words_from bare cur [] = some (cur ∷ [])
words_from single cur [] = none
words_from double cur [] = none
words_from between cur (c ∷ s) =
    let skip = words_from between "" s in
    let quoted = words_from single "" s in
    let quoted2 = words_from double "" s in
    let grow = words_from bare (c ∷ "") s in
    if is_char 32 c
    then skip
    else if is_char 39 c
    then quoted
    else if is_char 34 c
    then quoted2
    else grow
words_from bare cur (c ∷ s) =
    let cut = cons_word cur (words_from between "" s) in
    let quoted = words_from single cur s in
    let quoted2 = words_from double cur s in
    let grow = words_from bare (cur <> (c ∷ "")) s in
    if is_char 32 c
    then cut
    else if is_char 39 c
    then quoted
    else if is_char 34 c
    then quoted2
    else grow
words_from single cur (c ∷ s) =
    let close = words_from bare cur s in
    let grow = words_from single (cur <> (c ∷ "")) s in if is_char 39 c then close else grow
words_from double cur (c ∷ s) =
    let close = words_from bare cur s in
    let grow = words_from double (cur <> (c ∷ "")) s in
    if is_char 34 c then close else if special c then none else grow

pub shell_words : String → Option (List String)
unfolding words_from
shell_words s = words_from between "" s

is_char-code : (n : ℕ) (c : Char) → is_char n c ≡ true → code c ≡ n
is_char-code n c h = ground arith

words-escape :
    (cur s : String) → words_from single cur ("'\"'\"'" <> s) ≡ words_from single (cur <> "'") s
unfolding words_from
words-escape cur s =
    rw
      (
        cons-append "'" "\"'\"'" s,
        cons-append "\"" "'\"'" s,
        cons-append "'" "\"'" s,
        cons-append "\"" "'" s,
        cons-append "'" "" s,
        nil-append s,
      )
      refl

-- the inside of single quotes, up to the closing one
words-inside :
    (cur v t : String)
    → words_from single cur (replace_char 39 "'\"'\"'" v <> ("'" <> t))
      ≡ words_from bare (cur <> v) t
unfolding replace_char words_from
words-inside cur [] t =
    rw (nil-append ("'" <> t), cons-append "'" "" t, nil-append t, append-nil cur) refl
words-inside cur (c ∷ v) t = elim (Bool-cases (is_char 39 c)) [
  | inl quote ↦
      let rest = replace_char 39 "'\"'\"'" v in
      let same : c ≡ "'" = Char-path c "'" (is_char-code 39 c quote) in
      rw
        (
          quote,
          replace_char,
          append_assoc "'\"'\"'" rest ("'" <> t),
          words-escape cur (rest <> ("'" <> t)),
          words-inside (cur <> "'") v t,
          append_assoc cur "'" v,
          cons-append "'" "" v,
          nil-append v,
          same,
        )
        refl
  | inr other ↦
      let rest = replace_char 39 "'\"'\"'" v in
      rw
        (
          other,
          replace_char,
          cons-append c rest ("'" <> t),
          words_from,
          other,
          words-inside (cur <> (c ∷ "")) v t,
          append_assoc cur (c ∷ "") v,
          cons-append c "" v,
          nil-append v,
        )
        refl
]

-- a quoted word, whatever follows
words-quoted : (v t : String) → words_from between "" (shell_quote v <> t) ≡ words_from bare v t
unfolding shell_quote words_from
words-quoted v t = elim (Bool-cases (v == "")) [
  | inl none_there ↦
      rw
        (
          none_there,
          shell_quote,
          (eq_iff v "").0 none_there,
          cons-append "'" "'" t,
          cons-append "'" "" t,
          nil-append t,
        )
        refl
  | inr some_there ↦
      let rest = replace_char 39 "'\"'\"'" v in
      rw
        (
          some_there,
          shell_quote,
          cons-append "'" "" (rest <> "'"),
          nil-append (rest <> "'"),
          cons-append "'" (rest <> "'") t,
          append_assoc rest "'" t,
          words_from,
          words-inside "" v t,
          nil-append v,
        )
        refl
]

words-space : (v s : String) → words_from bare v (" " <> s) ≡ cons_word v (words_from between "" s)
unfolding words_from
words-space v s = rw (cons-append " " "" s, nil-append s) refl

-- A shell reads back the very arguments that `joinCommandArgs` was given, whatever their characters.
pub shell_words-join_command_args :
    (args : List String) → shell_words (join_command_args args) ≡ some args
unfolding shell_words join_command_args join words_from cons_word
shell_words-join_command_args [] = refl
shell_words-join_command_args (v ∷ []) =
    ap (words_from between "") (sym (append-nil (shell_quote v))) ∙ words-quoted v ""
shell_words-join_command_args (v ∷ (w ∷ ws)) =
    words-quoted v (" " <> join_command_args (w ∷ ws))
    ∙ words-space v (join_command_args (w ∷ ws))
    ∙ ap (cons_word v) (shell_words-join_command_args (w ∷ ws))
