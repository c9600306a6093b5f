-- ===== src/Tests/Fixtures.antt =====
-- Test data that the runs share.
use text.Mathlib.Text.{starts_with}
use cam_bus.Base.{
  if◌then◌else◌, true, false, String, ◌<>◌, none, some, Result, ok, List, [], ◌∷◌, ◌≡◌, ◌≢◌, ◌∙◌,
  eq_iff,
}
use cam_bus.Base.Int.{pos}
use cam_bus.Core.{CameraInfo, no_info, AnalyticEvent}
use cam_bus.Uplink.Env.{Env}
use cam_bus.Uplink.Request.{Request}
use cam_bus.Uplink.Srt.Query.{Url, UrlLib}
use cam_bus.Uplink.Container.Logs.{Failure}
use cam_bus.Uplink.Container.Interface.{Containers}
use cam_bus.Uplink.Manager.{mediamtx, armed, Manager, Outside, UplinkProcess, put}

abbrev pub Log : Type 0
Log = List String

abbrev pub no_env : Env
no_env name = ""

abbrev pub srt_url_parts : Url
srt_url_parts = record {
  scheme = "srt";
  host = "central";
  path = "";
  hostname = "central";
  port = "8890";
  query = ("streamid", "publish:gate" ∷ []) ∷ [];
}

abbrev pub url_lib : UrlLib
url_lib = record {
  parse = λ s.
      ok (if starts_with s "rtsp" then record srt_url_parts { scheme = "rtsp" } else srt_url_parts);
  parse_query = λ _. some [];
  escape_host = λ s. s;
  split_host_port = λ _. none;
}

-- the identity that every container of the tests gets
abbrev pub identity : String
identity = "c1"

pub identity_given :
    {id : String} → (let r : Result Failure String = ok identity in r) ≡ ok id → id ≢ ""
identity_given {id} e blank =
    let same : identity ≡ id = cc in
    let clash : false ≡ true = (eq_iff identity "").1 (same ∙ blank) in cc

abbrev pub logging_containers : Containers Log
logging_containers = record {
  start = λ req w. (ok identity, ("start " <> req.name) ∷ w);
  stop = λ name w. (none, ("stop " <> name) ∷ w);
  inspect_status = λ name w. (ok (record { state = "running"; exit_code = pos 0; error = "" }), w);
  start_has_identity = λ req w e. identity_given e;
}

abbrev pub logging : Outside Log
logging = record {
  containers = logging_containers;
  hook = λ st w. ("status " <> st.state) ∷ w;
  env = no_env;
  url = url_lib;
  quote = λ s. s;
}

abbrev pub request : Request
request = record {
  camera_id = "gate";
  proxy_path = "gate";
  central_host = "central";
  central_srt_port = pos 8890;
  central_path = "hq/gate";
  ttl_seconds = pos 30;
}

-- an uplink that was started twice and has not been stopped
abbrev pub running : UplinkProcess
running = record {
  camera_key = "hq/gate";
  payload = request;
  container = "mediamtx-proxy";
  container_id = "";
  container_status = "running";
  ttl_timer = armed (pos 30);
  always_on = false;
  start_count = 2;
  stop_count = 0;
}

abbrev pub empty_manager : Manager
empty_manager = record {
  proxy_rtsp_base = "rtsp://localhost:8554";
  default_central_host = "central";
  default_srt_port = pos 8890;
  mode = mediamtx;
  always_on = false;
  always_on_paths = [];
  ignore_uplink = false;
  uplinks = [];
}

abbrev pub one_uplink : Manager
one_uplink = put empty_manager "hq/gate" running

abbrev pub camera : CameraInfo
camera = record no_info {
  tenant = "acme";
  building = "hq";
  floor = "1";
  device_type = "camera";
  device_id = "gate";
  enabled = true;
}

abbrev pub event_of_camera : AnalyticEvent
event_of_camera = record {
  timestamp = 100;
  event_id = "e1";
  camera_ip = "10.0.0.10";
  camera_name = "gate";
  analytic_type = "faceCapture";
  tenant = "acme";
  building = "hq";
  floor = "1";
  device_type = "camera";
  device_id = "gate";
  meta = [];
  snapshot_url = "http://store/e1.jpg";
  snapshot_b64 = "AAEC";
  raw_snapshot = none;
}
