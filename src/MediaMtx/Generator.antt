-- ===== src/MediaMtx/Generator.antt =====
-- internal/mediamtx/config.go: the generators, and the configuration that one builds.
use cam_bus.Base.{
  ℕ, Bool, true, false, String, ◌<>◌, Option, none, some, Result, ok, err, List, [], ◌∷◌, ◌==◌,
  ◌&&◌, ◌||◌, not, ltb, if◌then◌else◌,
}
use cam_bus.Base.Int.{ℤ, pos, is_positive, int_eq}
use cam_bus.Base.Str.{
  trim_space, trim_slashes, trim_prefix, trim_suffix, has_suffix, trim_right_by, is_char, to_lower,
}
use cam_bus.Base.Str.Decimal.{atoi}
use cam_bus.Base.Dict.{Dict, insert}
use cam_bus.Core.{CameraInfo}
use cam_bus.Uplink.Env.{Env, getenv, getenv_bool}
use cam_bus.Uplink.Path.{central_path_for}
use cam_bus.Uplink.Srt.Query.{UrlLib}
use cam_bus.Uplink.Srt.Candidates.{build_srt_url_candidates}
use cam_bus.MediaMtx.Config.{
  Config, PathConfig, max_record_delete_after, format_duration, retention_for_camera,
  join_command_args, auth_users_for_api, base_config,
}

-- Generator
pub record Generator : Type 0 where
  pub path : String
  pub reload_pid : ℤ
  pub api_base_url : String
  pub reload_auth_user : String
  pub reload_auth_pass : String
  pub reload_auth_token : String
  pub api_user : String
  pub api_pass : String
  pub record_delete_after : ℕ
  pub republish_on_ready : Bool
  pub proxy_rtsp_base : String
  pub ignore_uplink : Bool
  pub default_central_host : String
  pub use_central_paths : Bool
  pub source_from_proxy : Bool
  pub preserve_defaults : Bool

-- What a generator uses of Go's libraries: `time.ParseDuration` of a positive duration,
-- `(time.Duration).String`, `net/url` and the environment. `parse_api` is `url.Parse` of the API's
-- address: its path, and its text with another path.
pub record Lib : Type 0 where
  pub parse_duration : String → Option ℕ
  pub duration_string : ℤ → String
  pub url : UrlLib
  pub env : Env
  pub parse_api : String → Option (String × (String → String))

abbrev positive_or_zero : Option ℤ → ℤ
positive_or_zero none = pos 0
positive_or_zero (some n) = if is_positive n then n else pos 0

-- parsePIDEnv
unfoldable pub parse_pid_env : Env → String → ℤ
parse_pid_env env key =
    let value = trim_space (env key) in if value == "" then pos 0 else positive_or_zero (atoi value)

abbrev some_or {ℓ} : {A : Type ℓ} → A → Option A → A
some_or def none = def
some_or def (some a) = a

module _ (lib : Lib) where
  -- parseDurationEnv
  unfoldable pub parse_duration_env : String → ℕ → ℕ
  parse_duration_env key def =
      let value = trim_space (lib.env key) in
      if value == "" then def else some_or def (lib.parse_duration value)

  without_path : Option (String × (String → String)) → String → String
  without_path none value = trim_right_by (is_char b'/') value
  without_path (some (path, print)) value =
      let path = trim_suffix path "/" in
      trim_right_by (is_char b'/') (
        print (
          if has_suffix path "/v3/reload"
          then trim_suffix path "/v3/reload"
          else if has_suffix path "/v3"
          then trim_suffix path "/v3"
          else path))

  -- normalizeAPIBaseURL
  unfoldable pub normalize_api_base_url : String → String
  unfolding without_path
  normalize_api_base_url raw =
      let value = trim_space raw in
      if value == "" then "" else without_path (lib.parse_api value) value

  -- the part that the two constructors share, for the variables with the prefix
  from_env : String → Generator
  from_env prefix =
      let get : String → String = λ name. trim_space (lib.env (prefix <> name)) in
      let pid = parse_pid_env lib.env (prefix <> "RELOAD_PID") in
      let legacy = get "RELOAD_USER" == "" && get "RELOAD_PASS" == "" && get "RELOAD_TOKEN" == "" in
      let retention =
        parse_duration_env (prefix <> "RECORD_DELETE_AFTER") max_record_delete_after in
      record {
        path = get "CONFIG_PATH";
        reload_pid = if is_positive pid then pid else parse_pid_env lib.env (prefix <> "PID");
        api_base_url = normalize_api_base_url (lib.env (prefix <> "RELOAD_URL"));
        reload_auth_user = if legacy then get "API_USER" else get "RELOAD_USER";
        reload_auth_pass = if legacy then get "API_PASS" else get "RELOAD_PASS";
        reload_auth_token = if legacy then get "API_TOKEN" else get "RELOAD_TOKEN";
        api_user = get "API_USER";
        api_pass = get "API_PASS";
        record_delete_after =
            if ltb max_record_delete_after retention then max_record_delete_after else retention;
        republish_on_ready = false;
        proxy_rtsp_base =
            trim_suffix (getenv lib.env "UPLINK_PROXY_RTSP_BASE" "rtsp://localhost:8554") "/";
        ignore_uplink = getenv_bool lib.env "IGNORE_UPLINK" false;
        default_central_host = trim_space (lib.env "UPLINK_CENTRAL_HOST");
        use_central_paths = false;
        source_from_proxy = false;
        preserve_defaults = false;
      }

  -- NewGeneratorFromEnv
  unfoldable pub new_generator_from_env : Option Generator
  unfolding from_env parse_duration_env
  new_generator_from_env =
      let g = from_env "MTX_PROXY_" in
      if g.path == ""
      then none
      else some (record g {
        republish_on_ready =
            to_lower (trim_space (lib.env "UPLINK_MODE")) == "mediamtx" || g.ignore_uplink;
      })

  -- NewCentralGeneratorFromEnv
  unfoldable pub new_central_generator_from_env : Option Generator
  unfolding from_env parse_duration_env
  new_central_generator_from_env =
      let g = from_env "MTX_CENTRAL_" in
      if g.path == ""
      then none
      else some (record g {
        use_central_paths = true;
        source_from_proxy = true;
        preserve_defaults = true;
      })

  -- the command of a result of `BuildSRTURLCandidates`; "" where there is no candidate
  republish : String → Result String (List String) → String
  republish proxy_url (err _) = ""
  republish proxy_url (ok []) = ""
  republish proxy_url (ok (u ∷ us)) =
      join_command_args
        ("/usr/local/bin/republish-srt" ∷ ("--proxy-url" ∷ (proxy_url ∷ ("--" ∷ (u ∷ us)))))

  -- buildRepublishCommand
  unfoldable pub build_republish_command : String → CameraInfo → String
  unfolding republish
  build_republish_command base info =
      let proxy = trim_slashes (trim_space info.proxy_path) in
      let path = if proxy == "" then trim_slashes (trim_space info.device_id) else proxy in
      republish (trim_suffix base "/" <> ("/" <> path)) (
        build_srt_url_candidates lib.url lib.env info.central_host info.central_srt_port
          info.central_path)

  -- pathConfigFor
  unfoldable pub path_config_for : CameraInfo → String → ℕ → Bool → String → PathConfig
  path_config_for info source def republish_on_ready base =
      let cmd =
        if republish_on_ready && not (info.central_host == "") && not (info.central_path == "")
        then build_republish_command base info
        else "" in
      let retention = retention_for_camera info def in
      record {
        source = source;
        source_on_demand = false;
        run_on_ready = cmd;
        run_on_ready_restart = not (cmd == "");
        record_on = if info.record_enabled then none else some false;
        record_delete_after =
            if info.record_enabled && not (int_eq retention (pos def))
            then format_duration lib.duration_string retention
            else "";
      }

  module _ (g : Generator) where
    -- pathNameFor
    unfoldable pub path_name_for : CameraInfo → String
    path_name_for info =
        let central = trim_space info.central_path in
        let proxy = trim_space info.proxy_path in
        let path =
          if g.use_central_paths
          then (if central == "" then central_path_for info else central)
          else (if proxy == "" then info.device_id else proxy) in
        let path = trim_prefix path "/" in if path == "." then "" else trim_space path

    -- sourceURLFor
    unfoldable pub source_url_for : CameraInfo → String
    source_url_for info =
        let proxy = trim_space info.proxy_path in
        let path = trim_prefix (if proxy == "" then info.device_id else proxy) "/" in
        if g.source_from_proxy
        then (if path == "" then "" else trim_suffix g.proxy_rtsp_base "/" <> ("/" <> path))
        else trim_space info.rtsp_url

    -- the camera as the loop of `buildConfig` reads it
    unfoldable pub effective : CameraInfo → CameraInfo
    effective info =
        if g.ignore_uplink
        then record info {
          central_host =
              if info.central_host == "" then g.default_central_host else info.central_host;
          central_path =
              if info.central_path == "" then central_path_for info else info.central_path;
        }
        else info

    -- a camera's entry of the paths, where it has one
    unfoldable pub entry_for : CameraInfo → Option (String × PathConfig)
    unfolding path_name_for source_url_for effective
    entry_for given =
        let info = effective given in
        let path = path_name_for info in
        let source = source_url_for info in
        if path == ""
        then none
        else if source == "" && not g.republish_on_ready
        then none
        else some (
          path,
          path_config_for info source g.record_delete_after g.republish_on_ready g.proxy_rtsp_base,
        )

    unfoldable pub add_entry : Dict PathConfig → Option (String × PathConfig) → Dict PathConfig
    add_entry paths none = paths
    add_entry paths (some (path, cfg)) = insert path cfg paths

    -- the loop of `buildConfig`
    unfoldable pub add_cameras : List CameraInfo → Dict PathConfig → Dict PathConfig
    unfolding add_entry entry_for
    add_cameras [] paths = paths
    add_cameras (info ∷ infos) paths = add_cameras infos (add_entry paths (entry_for info))

    -- the configuration without its paths; `none` is a file that does not exist
    unfoldable pub start_config : Option Config → Config
    start_config existing =
        let fresh = base_config lib.duration_string g.record_delete_after g.api_user g.api_pass in
        let no_user = g.api_user == "" && g.api_pass == "" in
        elim existing [
          | none ↦ fresh
          | some old ↦
              if g.preserve_defaults
              then record old {
                paths = [];
                auth_internal_users =
                    if no_user
                    then old.auth_internal_users
                    else auth_users_for_api g.api_user g.api_pass;
                path_defaults =
                    if old.path_defaults.record_delete_after == ""
                    then record old.path_defaults {
                      record_delete_after =
                          format_duration lib.duration_string (pos g.record_delete_after);
                    }
                    else old.path_defaults;
              }
              else record fresh {
                auth_internal_users =
                    if no_user then old.auth_internal_users else fresh.auth_internal_users;
              }
        ]

    -- buildConfig
    unfoldable pub build_config : Option Config → List CameraInfo → Config
    unfolding start_config add_cameras
    build_config existing cameras =
        let cfg = start_config existing in record cfg { paths = add_cameras cameras [] }
