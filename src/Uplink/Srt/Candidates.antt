-- ===== src/Uplink/Srt/Candidates.antt =====
-- internal/uplink/srt.go: the candidate addresses of an uplink, best first.
pub mod Laws
use Prim.Native.Char.{Char, code}
use Prim.Native.String
use cam_bus.Base.{
  ℕ, Bool, true, false, String, ◌<>◌, Option, none, some, Result, ok, err, List, [], ◌∷◌, ◌++◌,
  ◌==◌, ◌&&◌, ◌||◌, not, leb, nat_eq, if◌then◌else◌, any,
}
use cam_bus.Base.Int.{ℤ}
use cam_bus.Base.Str.{trim_space}
use cam_bus.Base.Dict.{Dict, lookup}
use text.Mathlib.Text.{starts_with}
use cam_bus.Uplink.Env.{Env, getenv_bool}
use cam_bus.Uplink.Srt.Options.{SrtQueryOptions, srt_options_from_env, srt_option_candidates}
use cam_bus.Uplink.Srt.Query.{
  Url, UrlLib, encode, build_srt_query_values, build_srt_url, build_srt_query_with_raw_stream_id,
}
use cam_bus.Uplink.Srt.Host.{normalize_srt_inputs}

-- streamIDForPath
unfoldable pub stream_id_for_path : String → String
stream_id_for_path path =
    let trimmed = trim_space path in
    if starts_with trimmed "publish:" then trimmed else "publish:" <> trimmed

-- the runes that `isSafeRawStreamID` lets through
unfoldable pub is_safe_char : ℕ → Bool
is_safe_char n =
    (leb b'a' n && leb n b'z')
    || (leb b'A' n && leb n b'Z')
    || (leb b'0' n && leb n b'9')
    || nat_eq n b':'
    || nat_eq n b'/'
    || nat_eq n b'-'
    || nat_eq n b'_'
    || nat_eq n b'.'
    || nat_eq n b'~'

-- isSafeRawStreamID
unfoldable pub is_safe_raw_stream_id : String → Bool
unfolding is_safe_char
is_safe_raw_stream_id String.[] = true
is_safe_raw_stream_id (String.◌∷◌ c s) = is_safe_char (code c) && is_safe_raw_stream_id s

-- q.Get("streamid")
unfoldable pub get_first : String → Dict (List String) → String
get_first key query = elim (lookup key query) [ none ↦ "" | some [] ↦ "" | some (v ∷ _) ↦ v ]

-- `url ∈ seen`; the map `seen` holds exactly the addresses kept so far
abbrev pub mem : String → List String → Bool
mem s ss = any (λ t. t == s) ss

module _ (url : UrlLib) where
  -- validateSRTURL: whether it returns no error
  unfoldable pub is_valid_srt_url : String → Bool
  unfolding get_first
  is_valid_srt_url raw = elim (url.parse raw) [
    | err _ ↦ false
    | ok parsed ↦
        parsed.scheme == "srt"
        && not (parsed.host == "")
        && not (trim_space (get_first "streamid" parsed.query) == "")
  ]

  -- buildSRTURLVariants
  unfoldable pub build_srt_url_variants : String → ℤ → String → SrtQueryOptions → List String
  build_srt_url_variants host port path opts =
      let stream_id = stream_id_for_path path in
      let values = build_srt_query_values url stream_id opts in
      if is_safe_raw_stream_id stream_id
      then build_srt_url url host port (build_srt_query_with_raw_stream_id values stream_id)
        ∷ build_srt_url url host port (encode values)
        ∷ []
      else build_srt_url url host port (encode values) ∷ []

  -- one round of the inner loop of `BuildSRTURLCandidates`
  unfoldable pub add_candidate : List String → String → List String
  unfolding is_valid_srt_url
  add_candidate urls srt_url =
      if not (is_valid_srt_url srt_url)
      then urls
      else if mem srt_url urls
      then urls
      else urls ++ srt_url ∷ []

  -- the inner loop
  unfoldable pub add_all : List String → List String → List String
  unfolding add_candidate
  add_all urls [] = urls
  add_all urls (u ∷ us) = add_all (add_candidate urls u) us

  -- the outer loop
  unfoldable pub add_options :
      String → ℤ → String → List String → List SrtQueryOptions → List String
  unfolding add_all
  add_options host port path urls [] = urls
  add_options host port path urls (opts ∷ more) =
      add_options host port path (add_all urls (build_srt_url_variants host port path opts)) more

  abbrev or_no_url : List String → Result String (List String)
  or_no_url [] = err "nenhuma url SRT válida gerada"
  or_no_url (u ∷ us) = ok (u ∷ us)

  -- BuildSRTURLCandidates
  unfoldable pub build_srt_url_candidates : Env → String → ℤ → String → Result String (List String)
  unfolding add_options
  build_srt_url_candidates env host port path = elim (normalize_srt_inputs url host port path) [
    | err message ↦ err ("normalizar entradas SRT: " <> message)
    | ok (h, q, p) ↦ or_no_url (
        add_options h q p [] (
          srt_option_candidates (getenv_bool env "UPLINK_SRT_COMPAT_PROFILE" false)
            (srt_options_from_env env)))
  ]
