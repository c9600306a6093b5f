-- ===== src/Uplink/Srt/Query.antt =====
-- internal/uplink/srt.go: the query of an SRT address. `url.Values` is a `Dict` of single values,
-- since the code only ever sets; `encode` is url.Values.Encode.
use Prim.Native.Char.{Char, code}
use Prim.Native.Nat.{◌/◌, ◌%◌, ◌+◌, Ordering}
use Prim.Native.String.{char_at, compare}
use cam_bus.Base.{
  ℕ, Bool, true, false, String, ◌<>◌, Option, none, some, List, [], ◌∷◌, ◌==◌, ◌&&◌, ◌||◌, leb, ltb,
  if◌then◌else◌, Result,
}
use cam_bus.Base.Int.{ℤ, is_positive}
use cam_bus.Base.Str.{trim_space, is_char, trim_left_by}
use cam_bus.Base.Str.Decimal.{show_int}
use cam_bus.Base.Dict.{Dict, insert, erase}
use cam_bus.Uplink.Srt.Options.{SrtQueryOptions}

-- net/url and net.SplitHostPort as far as the program uses them. `err` holds the error's message;
-- `none` stands for an error whose message is not used.
pub record Url : Type 0 where
  pub scheme : String
  pub host : String
  pub path : String
  pub hostname : String
  pub port : String
  pub query : Dict (List String)

pub record UrlLib : Type 0 where
  pub parse : String → Result String Url
  pub parse_query : String → Option (Dict (List String))
  -- the host as `URL.String` writes it
  pub escape_host : String → String
  pub split_host_port : String → Option (String × String)

-- the characters that need no escape in a query
unfoldable pub is_unreserved : ℕ → Bool
is_unreserved n =
    (leb b'a' n && leb n b'z')
    || (leb b'A' n && leb n b'Z')
    || (leb b'0' n && leb n b'9')
    || (leb b'-' n && leb n b'.')
    || (leb b'_' n && leb n b'_')
    || (leb b'~' n && leb n b'~')

escape_byte : ℕ → String
escape_byte b = String.◌∷◌ (char_at "%" 0) (
    String.◌∷◌ (char_at "0123456789ABCDEF" (b / 16))
      (String.◌∷◌ (char_at "0123456789ABCDEF" (b % 16)) ""))

-- the bytes of a rune's UTF-8
utf8 : ℕ → List ℕ
utf8 n =
    if ltb n 128
    then n ∷ []
    else if ltb n 2048
    then (192 + n / 64) ∷ (128 + n % 64) ∷ []
    else if ltb n 65536
    then (224 + n / 4096) ∷ (128 + n / 64 % 64) ∷ (128 + n % 64) ∷ []
    else (240 + n / 262144) ∷ (128 + n / 4096 % 64) ∷ (128 + n / 64 % 64) ∷ (128 + n % 64) ∷ []

escape_bytes : List ℕ → String
unfolding escape_byte
escape_bytes [] = ""
escape_bytes (b ∷ bs) = escape_byte b <> escape_bytes bs

escape_char : Char → String
unfolding is_unreserved utf8 escape_bytes
escape_char c =
    if is_char b' ' c
    then "+"
    else if is_unreserved (code c)
    then String.◌∷◌ c ""
    else escape_bytes (utf8 (code c))

-- url.QueryEscape
unfoldable pub query_escape : String → String
unfolding escape_char
query_escape String.[] = ""
query_escape (String.◌∷◌ c s) = escape_char c <> query_escape s

abbrev comes_after : String → String → Bool
comes_after s t = elim (compare s t) [ Ordering.gt ↦ true | _ ↦ false ]

insert_sorted : String × String → List (String × String) → List (String × String)
insert_sorted p [] = p ∷ []
insert_sorted (k, v) ((j, w) ∷ d) =
    let later = (j, w) ∷ insert_sorted (k, v) d in
    elim (comes_after k j) [ true ↦ later | false ↦ (k, v) ∷ (j, w) ∷ d ]

sort : List (String × String) → List (String × String)
unfolding insert_sorted
sort [] = []
sort (p ∷ d) = insert_sorted p (sort d)

pair : String × String → String
unfolding query_escape
pair (k, v) = query_escape k <> "=" <> query_escape v

join_pairs : List (String × String) → String
unfolding pair
join_pairs [] = ""
join_pairs (p ∷ []) = pair p
join_pairs (p ∷ (q ∷ d)) = pair p <> "&" <> join_pairs (q ∷ d)

-- url.Values.Encode
unfoldable pub encode : Dict String → String
unfolding sort join_pairs
encode values = join_pairs (sort values)

-- if opts.X > 0 { queryValues.Set(key, fmt.Sprintf("%d", opts.X)) }
unfoldable pub set_positive : String → ℤ → Dict String → Dict String
set_positive key x values = if is_positive x then insert key (show_int x) values else values

unfoldable pub set_nonempty : String → String → Dict String → Dict String
set_nonempty key s values = if s == "" then values else insert key s values

last_of : List String → String
last_of [] = ""
last_of (s ∷ []) = s
last_of (s ∷ (t ∷ ss)) = last_of (t ∷ ss)

-- the loop over the parsed extra parameters
set_all : Dict (List String) → Dict String → Dict String
unfolding last_of
set_all [] values = values
set_all ((key, vals) ∷ parsed) values = set_all parsed (insert key (last_of vals) values)

abbrev set_parsed : Option (Dict (List String)) → Dict String → Dict String
set_parsed none values = values
set_parsed (some parsed) values = set_all parsed values

module _ (url : UrlLib) where
  -- the extra parameters at the end of `applySRTQueryOptions`
  unfoldable pub apply_extra_params : String → Dict String → Dict String
  unfolding set_all
  apply_extra_params extra values =
      let trimmed = trim_space extra in
      if trimmed == ""
      then values
      else set_parsed
          (url.parse_query (trim_left_by (λ c. is_char b'?' c || is_char b'&' c) trimmed)) values

  -- applySRTQueryOptions
  unfoldable pub apply_srt_query_options : SrtQueryOptions → Dict String → Dict String
  apply_srt_query_options opts v₀ =
      let v₁ = set_nonempty "passphrase" opts.passphrase v₀ in
      let v₂ = set_positive "pbkeylen" opts.pb_key_len v₁ in
      let v₃ = set_positive "peerlatency" opts.peer_latency v₂ in
      let v₄ = set_positive "rcvlatency" opts.rcv_latency v₃ in
      let v₅ = set_positive "conntimeo" opts.conn_timeout v₄ in
      let v₆ = set_positive "sndbuf" opts.snd_buf v₅ in
      let v₇ = set_positive "inputbw" opts.input_bw v₆ in
      let v₈ = set_positive "oheadbw" opts.ohead_bw v₇ in
      let v₉ = if opts.tl_pkt_drop then insert "tlpktdrop" "1" v₈ else v₈ in
      apply_extra_params opts.extra_params v₉

  -- buildSRTQueryValues
  unfoldable pub build_srt_query_values : String → SrtQueryOptions → Dict String
  build_srt_query_values stream_id opts =
      let v₁ : Dict String =
        insert "transtype" "live" (insert "mode" "caller" (insert "streamid" stream_id [])) in
      let v₂ = set_positive "pkt_size" opts.packet_size v₁ in
      let v₃ = set_positive "latency" opts.latency v₂ in
      let v₄ = set_positive "maxbw" opts.max_bw v₃ in
      let v₅ = set_positive "rcvbuf" opts.rcv_buf v₄ in apply_srt_query_options opts v₅

  -- buildSRTURL
  unfoldable pub build_srt_url : String → ℤ → String → String
  build_srt_url host port raw_query =
      "srt://"
      <> url.escape_host (host <> ":" <> show_int port)
      <> (if raw_query == "" then "" else "?" <> raw_query)

-- buildSRTQueryWithRawStreamID
unfoldable pub build_srt_query_with_raw_stream_id : Dict String → String → String
build_srt_query_with_raw_stream_id values stream_id =
    let encoded = encode (erase "streamid" values) in
    if encoded == "" then "streamid=" <> stream_id else encoded <> "&streamid=" <> stream_id
