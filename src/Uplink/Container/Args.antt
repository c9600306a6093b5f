-- ===== src/Uplink/Container/Args.antt =====
-- internal/uplink/container/manager.go: the arguments of FFmpeg.
pub mod Laws
use Prim.Native.String
use cam_bus.Base.{
  ℕ, Bool, true, false, String, ◌<>◌, Option, none, some, Result, ok, err, List, [], ◌∷◌, ◌++◌,
  ◌==◌, ◌&&◌, ◌||◌, not, if◌then◌else◌, any,
}
use cam_bus.Base.Str.{to_lower, trim_space, fields, join}
use cam_bus.Uplink.Env.{Env, getenv}
use cam_bus.Uplink.Srt.Query.{Url, UrlLib}

-- Request
pub record Request : Type 0 where
  pub name : String
  pub proxy_url : String
  pub srt_url : String

-- Manager
pub record Manager : Type 0 where
  pub docker_bin : String
  pub image : String
  pub config_dir : String
  pub build_context : String
  pub dockerfile : String
  pub ffmpeg_global_args : List String
  pub ffmpeg_input_args : List String
  pub ffmpeg_output_args : List String

-- defaultFFmpegGlobalArgs, defaultFFmpegInputArgs, defaultFFmpegOutputArgs
abbrev pub default_ffmpeg_global_args : List String
default_ffmpeg_global_args = "-hide_banner" ∷ []

abbrev pub default_ffmpeg_input_args : List String
default_ffmpeg_input_args =
    "-fflags" ∷ "+nobuffer" ∷ "-rtsp_transport" ∷ "tcp" ∷ "-rw_timeout" ∷ "15000000" ∷ "-stimeout"
    ∷ "15000000" ∷ []

abbrev pub default_ffmpeg_output_args : List String
default_ffmpeg_output_args =
    "-c" ∷ "copy" ∷ "-f" ∷ "mpegts" ∷ "-mpegts_flags" ∷ "+resend_headers" ∷ "-muxdelay" ∷ "0"
    ∷ "-muxpreload" ∷ "0" ∷ []

-- parseArgsEnv
unfoldable pub parse_args_env : Env → String → List String → List String
parse_args_env env key def = let v = trim_space (env key) in if v == "" then def else fields v

-- NewManagerFromEnv
unfoldable pub new_manager_from_env : Env → Manager
unfolding parse_args_env
new_manager_from_env env = record {
  docker_bin = getenv env "UPLINK_DOCKER_BIN" "docker";
  image = getenv env "UPLINK_DOCKER_IMAGE" "jrottenberg/ffmpeg:6.0-alpine";
  config_dir = getenv env "UPLINK_DOCKER_CONFIG" "";
  build_context = env "UPLINK_DOCKER_BUILD_CONTEXT";
  dockerfile = env "UPLINK_DOCKERFILE";
  ffmpeg_global_args = parse_args_env env "UPLINK_FFMPEG_GLOBAL_ARGS" default_ffmpeg_global_args;
  ffmpeg_input_args = parse_args_env env "UPLINK_FFMPEG_INPUT_ARGS" default_ffmpeg_input_args;
  ffmpeg_output_args = parse_args_env env "UPLINK_FFMPEG_OUTPUT_ARGS" default_ffmpeg_output_args;
}

-- the loop of `removeOptionWithValue`; the Boolean is `skipNext`
unfoldable pub remove_from : Bool → List String → String → List String
remove_from skip [] option = []
remove_from true (arg ∷ args) option = remove_from false args option
remove_from false (arg ∷ args) option =
    let drop = remove_from true args option in
    let keep = arg ∷ remove_from false args option in if arg == option then drop else keep

-- removeOptionWithValue. At the last argument `skipNext` is not set, and nothing would follow.
unfoldable pub remove_option_with_value : List String → String → List String
unfolding remove_from
remove_option_with_value args option = remove_from false args option

-- prependIfMissing
unfoldable pub prepend_if_missing : List String → String → List String
prepend_if_missing args value = if any (λ arg. arg == value) args then args else value ∷ args

module _ (url : UrlLib) where
  -- urlScheme
  unfoldable pub url_scheme : String → String
  url_scheme raw = elim (url.parse raw) [ err _ ↦ "" | ok parsed ↦ to_lower parsed.scheme ]

  -- normalizeInputArgs
  unfoldable pub normalize_input_args : String → List String → List String
  unfolding url_scheme remove_option_with_value prepend_if_missing
  normalize_input_args proxy_url args =
      if url_scheme proxy_url == "file"
      then remove_option_with_value
          (remove_option_with_value (prepend_if_missing args "-re") "-rtsp_transport") "-stimeout"
      else if url_scheme proxy_url == "rtsp"
      then args
      else remove_option_with_value (remove_option_with_value args "-rtsp_transport") "-stimeout"

  -- buildFFmpegArgs
  unfoldable pub build_ffmpeg_args : Manager → Request → List String → List String
  unfolding normalize_input_args
  build_ffmpeg_args m req input_args =
      m.ffmpeg_global_args
      ++ (normalize_input_args req.proxy_url input_args
          ++ (("-i" ∷ req.proxy_url ∷ []) ++ (m.ffmpeg_output_args ++ (req.srt_url ∷ []))))

module _ (url : UrlLib) (quote : String → String) where
  scheme_error : Url → List String → Option String
  scheme_error parsed schemes =
      let scheme = to_lower parsed.scheme in
      if not (any (λ expected. expected == scheme) schemes)
      then some ("expected scheme " <> quote (join "," schemes) <> ", got " <> quote parsed.scheme)
      else if parsed.host == "" && not (scheme == "file")
      then some "missing host"
      else none

  -- validateURLScheme: the message of its error. A file address needs no host.
  unfoldable pub validate_url_scheme : String → List String → Option String
  unfolding scheme_error
  validate_url_scheme raw schemes = elim (url.parse raw) [
    | err message ↦ some message
    | ok parsed ↦ scheme_error parsed schemes
  ]

  -- validateRequest
  unfoldable pub validate_request : Request → Option String
  unfolding validate_url_scheme
  validate_request req = elim (validate_url_scheme req.proxy_url ("rtsp" ∷ "file" ∷ [])) [
    | some e ↦ some ("proxy url invalid: " <> e)
    | none ↦ elim (validate_url_scheme req.srt_url ("srt" ∷ [])) [
      | some e ↦ some ("srt url invalid: " <> e)
      | none ↦ none
    ]
  ]
