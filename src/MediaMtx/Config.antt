-- ===== src/MediaMtx/Config.antt =====
-- internal/mediamtx/config.go: the configuration's types, and the texts that it is made of.
use cam_bus.Base.{
  ℕ, Bool, true, false, String, ◌<>◌, Option, some, List, [], ◌∷◌, map, ◌*◌, ◌/◌, ◌%◌, ◌+◌, ◌-◌,
  ◌==◌, ◌&&◌, ltb, nat_eq, if◌then◌else◌,
}
use cam_bus.Base.Int.{ℤ, pos, negsuc, is_positive, wrap_int64}
use cam_bus.Base.Str.{replace_char, join}
use cam_bus.Base.Str.Decimal.{show_int}
use cam_bus.Base.Dict.{Dict}
use cam_bus.Core.{CameraInfo}

-- AuthPermission
pub record AuthPermission : Type 0 where
  pub action : String
  pub path : String

-- AuthInternalUser; `none` is a nil slice
pub record AuthInternalUser : Type 0 where
  pub user : String
  pub pass : String
  pub ips : Option (List String)
  pub permissions : List AuthPermission

-- PathDefaults
pub record PathDefaults : Type 0 where
  pub record_on : Bool
  pub record_path : String
  pub record_format : String
  pub record_part_duration : String
  pub record_segment_duration : String
  pub record_delete_after : String

-- PathConfig
pub record PathConfig : Type 0 where
  pub source : String
  pub source_on_demand : Bool
  pub run_on_ready : String
  pub run_on_ready_restart : Bool
  pub record_on : Option Bool
  pub record_delete_after : String

-- Config
pub record Config : Type 0 where
  pub rtsp_address : String
  pub hls : Bool
  pub webrtc : Bool
  pub api : Bool
  pub api_address : String
  pub auth_internal_users : List AuthInternalUser
  pub path_defaults : PathDefaults
  pub paths : Dict PathConfig

-- Durations are nanoseconds. Those of the settings are positive.
abbrev pub second : ℕ
second = 1000000000

abbrev pub minute : ℕ
minute = 60000000000

-- maxRecordDeleteAfter
abbrev pub max_record_delete_after : ℕ
max_record_delete_after = 10 * minute

-- formatDuration; `duration_string` is (time.Duration).String
unfoldable pub format_duration : (ℤ → String) → ℤ → String
format_duration duration_string (pos d) =
    if nat_eq (d % minute) 0
    then show_int (pos (d / minute)) <> "m"
    else if nat_eq (d % second) 0
    then show_int (pos (d / second)) <> "s"
    else duration_string (pos d)
format_duration duration_string (negsuc k) =
    let d = k + 1 in
    if nat_eq (d % minute) 0
    then show_int (negsuc (d / minute - 1)) <> "m"
    else if nat_eq (d % second) 0
    then show_int (negsuc (d / second - 1)) <> "s"
    else duration_string (negsuc k)

-- time.Duration(minutes) * time.Minute, for minutes that are positive
abbrev pub minutes_of : ℤ → ℤ
minutes_of (pos n) = wrap_int64 (n * minute)
minutes_of (negsuc _) = pos 0

-- the comparison with the default in `retentionForCamera`
abbrev pub at_most_default : ℕ → ℤ → ℤ
at_most_default def (pos r) = if ltb def r then pos def else pos r
at_most_default def (negsuc k) = negsuc k

-- retentionForCamera
unfoldable pub retention_for_camera : CameraInfo → ℕ → ℤ
retention_for_camera info def =
    if is_positive info.record_retention_minutes
    then at_most_default def (minutes_of info.record_retention_minutes)
    else pos def

-- shellQuote
unfoldable pub shell_quote : String → String
shell_quote value = if value == "" then "''" else "'" <> (replace_char 39 "'\"'\"'" value <> "'")

-- joinCommandArgs
unfoldable pub join_command_args : List String → String
unfolding shell_quote
join_command_args args = join " " (map shell_quote args)

abbrev permission : String → AuthPermission
permission action = record { action = action; path = "" }

-- authUsersForAPI
unfoldable pub auth_users_for_api : String → String → List AuthInternalUser
auth_users_for_api user pass =
    if user == "" && pass == ""
    then []
    else record {
      user = "any";
      pass = "";
      ips = some [];
      permissions = permission "publish" ∷ permission "read" ∷ permission "playback" ∷ [];
    }
      ∷ (record { user = user; pass = pass; ips = some []; permissions = permission "api" ∷ [] }
          ∷ [])

-- baseConfig
unfoldable pub base_config : (ℤ → String) → ℕ → String → String → Config
base_config duration_string retention user pass = record {
  rtsp_address = ":8554";
  hls = false;
  webrtc = false;
  api = true;
  api_address = ":9997";
  auth_internal_users = auth_users_for_api user pass;
  path_defaults = record {
    record_on = true;
    record_path = "/recordings/%path/%Y-%m-%d_%H-%M-%S-%f";
    record_format = "fmp4";
    record_part_duration = "1s";
    record_segment_duration = "1m";
    record_delete_after = format_duration duration_string (pos retention);
  };
  paths = [];
}
