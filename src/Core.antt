-- ===== src/Core.antt =====
-- internal/core: the camera's configuration and the events of the cameras.
pub mod Analytics
use cam_bus.Base.{ℕ, Bool, String, Option, List, false}
use cam_bus.Base.Int.{ℤ, pos}

-- CameraInfo
pub record CameraInfo : Type 0 where
  pub ip : String
  pub name : String
  pub manufacturer : String
  pub model : String
  pub username : String
  pub password : String
  pub port : ℤ
  pub use_tls : Bool
  pub analytics : List String
  pub enabled : Bool
  pub rtsp_url : String
  pub proxy_path : String
  pub central_host : String
  pub central_srt_port : ℤ
  pub central_path : String
  pub record_enabled : Bool
  pub record_retention_minutes : ℤ
  pub pre_roll_seconds : ℤ
  pub tenant : String
  pub building : String
  pub floor : String
  pub device_type : String
  pub device_id : String
  pub shard : String

-- core.CameraInfo{}
abbrev pub no_info : CameraInfo
no_info = record {
  ip = "";
  name = "";
  manufacturer = "";
  model = "";
  username = "";
  password = "";
  port = pos 0;
  use_tls = false;
  analytics = List.[];
  enabled = false;
  rtsp_url = "";
  proxy_path = "";
  central_host = "";
  central_srt_port = pos 0;
  central_path = "";
  record_enabled = false;
  record_retention_minutes = pos 0;
  pre_roll_seconds = pos 0;
  tenant = "";
  building = "";
  floor = "";
  device_type = "";
  device_id = "";
  shard = "";
}

-- A value of an event's `Meta`. A float64 is held as the text of its number; `null` is a nil interface.
pub data MetaValue : Type 0 where
  text : String → MetaValue
  number : ℤ → MetaValue
  flag : Bool → MetaValue
  double : String → MetaValue
  null : MetaValue

-- AnalyticEvent. `raw_snapshot` is the bytes, `none` where the source has a nil slice.
pub record AnalyticEvent : Type 0 where
  pub timestamp : ℕ
  pub event_id : String
  pub camera_ip : String
  pub camera_name : String
  pub analytic_type : String
  pub tenant : String
  pub building : String
  pub floor : String
  pub device_type : String
  pub device_id : String
  pub meta : List (String × MetaValue)
  pub snapshot_url : String
  pub snapshot_b64 : String
  pub raw_snapshot : Option (List ℕ)
