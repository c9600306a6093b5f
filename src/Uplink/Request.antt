-- ===== src/Uplink/Request.antt =====
-- internal/uplink/manager.go: requests, their normal form, their defaults and their keys.
use cam_bus.Base.{Bool, String, Option, none, some, ◌&&◌, ◌==◌, if◌then◌else◌}
use cam_bus.Base.Int.{ℤ, pos, is_positive, int_eq}
use cam_bus.Base.Str.{trim_space, trim_slashes, to_lower}

-- Request
pub record Request : Type 0 where
  pub camera_id : String
  pub proxy_path : String
  pub central_host : String
  pub central_srt_port : ℤ
  pub central_path : String
  pub ttl_seconds : ℤ

-- Normalize
unfoldable pub normalize : Request → Request
normalize r = record r {
  camera_id = trim_space r.camera_id;
  proxy_path = trim_slashes (trim_space r.proxy_path);
  central_host = trim_space r.central_host;
  central_path = trim_slashes (trim_space r.central_path);
}

-- Validate: the message of the error, if there is one.
unfoldable pub validate : Request → Option String
validate r = if r.camera_id == "" then some "cameraId required" else none

abbrev pub or_else : String → String → String
or_else s t = if s == "" then t else s

-- applyDefaults, over the two fields of the manager that it reads
unfoldable pub apply_defaults : String → ℤ → Request → Request
apply_defaults host port r =
    let proxy = or_else r.proxy_path r.camera_id in
    record r {
      proxy_path = proxy;
      central_path = or_else r.central_path proxy;
      central_host = or_else r.central_host host;
      central_srt_port = if is_positive r.central_srt_port then r.central_srt_port else port;
    }

-- validateStart
unfoldable pub validate_start : Request → Option String
validate_start r =
    if r.camera_id == ""
    then some "cameraId required"
    else if r.proxy_path == ""
    then some "proxyPath required"
    else if r.central_host == ""
    then some "centralHost required"
    else if r.central_path == ""
    then some "centralPath required"
    else none

-- keyFor
unfoldable pub key_for : Request → String
key_for r = if r.central_path == "" then r.camera_id else r.central_path

abbrev pub default_srt_port : ℤ
default_srt_port = pos 8890

-- normalizePort
unfoldable pub normalize_port : ℤ → ℤ
normalize_port port = if is_positive port then port else default_srt_port

-- sameRequest
unfoldable pub same_request : Request → Request → Bool
unfolding normalize_port
same_request a b =
    a.camera_id == b.camera_id
    && a.proxy_path == b.proxy_path
    && a.central_host == b.central_host
    && int_eq (normalize_port a.central_srt_port) (normalize_port b.central_srt_port)
    && a.central_path == b.central_path

-- normalizeAlwaysOnKey
unfoldable pub normalize_always_on_key : String → String
normalize_always_on_key raw = to_lower (trim_slashes (trim_space raw))
