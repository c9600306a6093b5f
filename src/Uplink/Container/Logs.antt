-- ===== src/Uplink/Container/Logs.antt =====
-- internal/uplink/container/manager.go: what the logs of a container say about its failure.
use Prim.Native.Char.{Char}
use Prim.Native.String.{len, slice}
use text.Mathlib.Text.{starts_with}
use cam_bus.Base.{
  ℕ, Bool, true, false, String, ◌<>◌, Option, none, some, List, [], ◌∷◌, ◌++◌, ◌==◌, ◌&&◌, ◌||◌,
  not, leb, if◌then◌else◌, any,
}
use cam_bus.Base.Str.{is_char, is_empty, span, contains, drop_prefix, join}

-- StartErrorKind
pub data StartErrorKind : Type 0 where
  unsupported_option network_failure unknown docker_failure : StartErrorKind

-- StartError. The error that it wraps is held as its message.
pub record StartError : Type 0 where
  pub kind : StartErrorKind
  pub cause : String
  pub ffmpeg_args : List String
  pub logs : String
  pub summary : String

-- An error of this package: `*StartError`, or a message.
pub data Failure : Type 0 where
  plain : String → Failure
  start_error : StartError → Failure

-- `\s` of Go's regular expressions
abbrev is_blank : Char → Bool
is_blank c = is_char 9 c || is_char 10 c || is_char 12 c || is_char 13 c || is_char 32 c

-- `Option ([^\s.]+) not found` at the beginning of the text: the group's text
option_not_found_at : String → Option String
unfolding span
option_not_found_at s =
    if starts_with s "Option "
    then (let (option, rest) = span (λ c. is_blank c || is_char b'.' c) (drop_prefix s "Option ") in
        if not (is_empty option) && starts_with rest " not found" then some option else none)
    else none

abbrev is_quote : Char → Bool
is_quote c = is_char 39 c || is_char 34 c

skip_quote : String → String
skip_quote String.[] = ""
skip_quote (String.◌∷◌ c s) = if is_quote c then s else String.◌∷◌ c s

-- `Unrecognized option ['"]?([^'"\s]+)['"]?` at the beginning of the text
unrecognized_option_at : String → Option String
unfolding span skip_quote
unrecognized_option_at s =
    if starts_with s "Unrecognized option "
    then (let (option, _) =
          span (λ c. is_blank c || is_quote c)
            (skip_quote (drop_prefix s "Unrecognized option ")) in
        if is_empty option then none else some option)
    else none

abbrev or_some : Option String → Option String → Option String
or_some none o = o
or_some (some a) _ = some a

-- the leftmost match
find_first : (String → Option String) → String → Option String
find_first at String.[] = at ""
find_first at (String.◌∷◌ c s) = let rest = find_first at s in or_some (at (String.◌∷◌ c s)) rest

-- unsupportedFFmpegOption
unfoldable pub unsupported_ffmpeg_option : String → String
unfolding option_not_found_at unrecognized_option_at find_first
unsupported_ffmpeg_option logs = elim (find_first option_not_found_at logs) [
  | some option ↦ option
  | none ↦ elim (find_first unrecognized_option_at logs) [ some option ↦ option | none ↦ "" ]
]

-- networkIndicators
abbrev pub network_indicators : List String
network_indicators =
    "Connection refused" ∷ "Connection timed out" ∷ "Network is unreachable" ∷ "No route to host"
    ∷ "Connection reset by peer" ∷ "ERROR:PEER" ∷ "Peer rejected connection"
    ∷ "Could not resolve host" ∷ "Server returned 404" ∷ "HTTP error" ∷ []

-- classifyFFmpegLogs
unfoldable pub classify_ffmpeg_logs : String → StartErrorKind × String
classify_ffmpeg_logs logs =
    if logs == ""
    then (unknown, "")
    else if not (unsupported_ffmpeg_option logs == "")
    then (unsupported_option, "ffmpeg unsupported option: " <> unsupported_ffmpeg_option logs)
    else if any (contains logs) network_indicators
    then (network_failure, "")
    else (unknown, "")

-- truncateString: the length is in bytes. Where the cut falls inside a rune, Go keeps the broken bytes
-- and the model drops them.
unfoldable pub truncate_string : String → ℕ → String
truncate_string value max_len =
    if leb max_len 0 || value == ""
    then value
    else if leb (len value) max_len
    then value
    else slice value 0 max_len <> "...(truncated)"

abbrev pub max_ffmpeg_log_length : ℕ
max_ffmpeg_log_length = 2000

abbrev kind_text : StartErrorKind → String → String
kind_text unsupported_option summary =
    if summary == "" then "ffmpeg unsupported option" else summary
kind_text network_failure _ = "ffmpeg network failure"
kind_text docker_failure _ = "docker run failure"
kind_text unknown _ = "ffmpeg start failure"

abbrev is_nil : List String → Bool
is_nil [] = true
is_nil (_ ∷ _) = false

abbrev part : Bool → String → List String
part true s = s ∷ []
part false s = []

-- `fmt`'s %q is given
module _ (quote : String → String) where
  -- (*StartError).Error. Every error of the package has a cause.
  unfoldable pub start_error_text : StartError → String
  start_error_text e = join " " (
      (kind_text e.kind e.summary ∷ [])
      ++ (part (not (is_nil e.ffmpeg_args)) ("ffmpeg_args=" <> quote (join " " e.ffmpeg_args))
          ++ (part (not (e.logs == "")) ("ffmpeg_logs=" <> quote e.logs)
              ++ (("err=" <> e.cause) ∷ []))))

  -- err.Error()
  unfoldable pub failure_text : Failure → String
  unfolding start_error_text
  failure_text (plain message) = message
  failure_text (start_error e) = start_error_text e
