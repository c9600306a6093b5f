-- ===== src/Supervisor.antt =====
-- internal/supervisor/supervisor.go: the supervisor's state, its keys and topics, and the updates of
-- its maps. The supervisor's mutex makes each update atomic.
pub mod Snapshots
pub mod Services
pub mod Discovery
pub mod Workers
pub mod Uplinks
pub mod Handlers
pub mod Steps
pub mod Invariant
pub mod Held
pub mod Soundness
pub mod Removal
pub mod Topics
pub mod Commands
pub mod Events
pub mod StatusReports
use Prim.Native.String
use cam_bus.Base.{
  ℕ, ◌+◌, Bool, true, false, String, ◌<>◌, Option, none, some, List, [], ◌∷◌, ◌==◌, ◌&&◌, ◌||◌, not,
  any, ltb, leb, length, nat_eq, if◌then◌else◌,
}
use cam_bus.Base.Int.{ℤ, pos, is_positive, int_eq}
use cam_bus.Uplink.Env.{Env}
use cam_bus.Base.Str.{trim_suffix, trim_space, trim_slashes, equal_fold, to_lower, replace_char}
use cam_bus.Base.Dict.{Dict, lookup, insert, erase}
use cam_bus.Core.{CameraInfo}
use cam_bus.Uplink.Request.{Request}
use cam_bus.Uplink.Manager.{Status}
use cam_bus.Drivers.{ConnectionState, connecting, online, StatusUpdate}

-- cameraWorker; the context that `cancel` ends is known by the worker's key
pub record CameraWorker : Type 0 where
  pub info : CameraInfo
  pub last_event_at : Option ℕ
  pub status : ConnectionState
  pub status_since : ℕ
  pub status_reason : String
  pub ever_connected : Bool
  pub analytics : List String

-- uplinkState
pub record UplinkState : Type 0 where
  pub camera_id : String
  pub proxy_path : String
  pub central_host : String
  pub central_path : String
  pub central_srt_port : ℤ
  pub ttl_seconds : ℤ
  pub start_count : ℕ
  pub stop_count : ℕ

-- Supervisor: its own state
pub record Supervisor : Type 0 where
  pub base_topic : String
  pub shard : String
  pub cameras : Dict CameraInfo
  pub uplink_states : Dict UplinkState
  pub uplink_status : Dict Status
  pub workers : Dict CameraWorker

-- New: the state that a supervisor starts with
unfoldable pub new_supervisor : String → Env → Supervisor
new_supervisor base_topic env = record {
  base_topic = trim_suffix base_topic "/";
  shard = env "CAMBUS_SHARD";
  cameras = [];
  uplink_states = [];
  uplink_status = [];
  workers = [];
}

-- keyFor
unfoldable pub key_for : CameraInfo → String
key_for i =
    i.tenant <> "|" <> i.building <> "|" <> i.floor <> "|" <> i.device_type <> "|" <> i.device_id

-- the topics of one camera
unfoldable pub camera_topic : Supervisor → CameraInfo → String → String
camera_topic s i rest =
    s.base_topic <> "/" <> i.tenant <> "/" <> i.building <> "/" <> i.floor <> "/" <> i.device_type
    <> "/" <> i.device_id <> "/" <> rest

-- eventTopic
unfoldable pub event_topic : Supervisor → CameraInfo → String → String
unfolding camera_topic
event_topic s i analytic =
    let name = trim_space analytic in
    camera_topic s i ((if name == "" then "unknown" else name) <> "/events")

-- cameraStatusTopic
unfoldable pub camera_status_topic : Supervisor → CameraInfo → String
unfolding camera_topic
camera_status_topic s i = camera_topic s i "status"

-- uplinkStatusTopic
unfoldable pub uplink_status_topic : Supervisor → CameraInfo → String
unfolding camera_topic
uplink_status_topic s i = camera_topic s i "uplink/status"

-- collectorStatusTopic
unfoldable pub collector_status_topic : Supervisor → String → String → String
collector_status_topic s tenant building =
    s.base_topic <> "/" <> tenant <> "/" <> building <> "/collector/status"

-- hasAnalytic
unfoldable pub has_analytic : CameraInfo → String → Bool
has_analytic info name = any (λ a. equal_fold a name) info.analytics

-- slugForCamera
unfoldable pub slug_for_camera : CameraInfo → String
slug_for_camera i = replace_char b'-' "_" (
    replace_char b' ' "_"
      (to_lower ("rtls_" <> i.tenant <> "_" <> i.building <> "_" <> i.floor <> "_" <> i.device_id)))

abbrev bool_eq : Bool → Bool → Bool
bool_eq true b = b
bool_eq false b = not b

abbrev texts_eq : List String → List String → Bool
texts_eq [] [] = true
texts_eq [] (_ ∷ _) = false
texts_eq (_ ∷ _) [] = false
texts_eq (a ∷ xs) (b ∷ ys) = a == b && texts_eq xs ys

-- cameraInfoEqual
unfoldable pub camera_info_equal : CameraInfo → CameraInfo → Bool
camera_info_equal a b =
    a.tenant == b.tenant
    && a.building == b.building
    && a.floor == b.floor
    && a.device_type == b.device_type
    && a.device_id == b.device_id
    && a.name == b.name
    && a.manufacturer == b.manufacturer
    && a.model == b.model
    && a.ip == b.ip
    && int_eq a.port b.port
    && a.username == b.username
    && a.password == b.password
    && bool_eq a.use_tls b.use_tls
    && bool_eq a.enabled b.enabled
    && a.shard == b.shard
    && a.rtsp_url == b.rtsp_url
    && a.proxy_path == b.proxy_path
    && a.central_path == b.central_path
    && bool_eq a.record_enabled b.record_enabled
    && int_eq a.record_retention_minutes b.record_retention_minutes
    && int_eq a.pre_roll_seconds b.pre_roll_seconds
    && texts_eq a.analytics b.analytics

abbrev is_online : ConnectionState → Bool
is_online online = true
is_online _ = false

abbrev pub put_worker : Supervisor → String → CameraWorker → Supervisor
put_worker s key w = record s { workers = insert key w s.workers }

-- touchWorker
unfoldable pub touch_worker : Supervisor → String → ℕ → Supervisor
touch_worker s key now = elim (lookup key s.workers) [
  | none ↦ s
  | some w ↦ put_worker s key (record w {
    last_event_at = some now;
    status = online;
    status_since = if is_online w.status then w.status_since else now;
    status_reason = if is_online w.status then w.status_reason else "";
    ever_connected = true;
  })
]

-- updateWorkerStatus
unfoldable pub update_worker_status : Supervisor → String → StatusUpdate → ℕ → Supervisor
update_worker_status s key update now = elim (lookup key s.workers) [
  | none ↦ s
  | some w ↦ put_worker s key (record w {
    status = update.state;
    status_reason = update.reason;
    status_since = now;
    ever_connected = is_online update.state || w.ever_connected;
  })
]

-- upsertCameraInfo, removeCameraInfo
unfoldable pub upsert_camera_info : Supervisor → String → CameraInfo → Supervisor
upsert_camera_info s key info = record s { cameras = insert key info s.cameras }

unfoldable pub remove_camera_info : Supervisor → String → Supervisor
remove_camera_info s key = record s { cameras = erase key s.cameras }

-- recordUplinkStatus
unfoldable pub record_uplink_status : Supervisor → String → Status → Supervisor
record_uplink_status s key status = record s { uplink_status = insert key status s.uplink_status }

-- startCount > stopCount
unfoldable pub is_active : UplinkState → Bool
is_active st = ltb st.stop_count st.start_count

-- activeUplinkState
unfoldable pub active_uplink_state : Supervisor → String → Option UplinkState
unfolding is_active
active_uplink_state s key = elim (lookup key s.uplink_states) [
  | none ↦ none
  | some st ↦ if is_active st then some st else none
]

-- normalizeCentralPort
unfoldable pub normalize_central_port : ℤ → ℤ
normalize_central_port port = if is_positive port then port else pos 8890

-- uplinkStateMatches
unfoldable pub uplink_state_matches : UplinkState → Request → Bool
unfolding normalize_central_port
uplink_state_matches st req =
    st.camera_id == req.camera_id
    && st.proxy_path == req.proxy_path
    && st.central_host == req.central_host
    && int_eq (normalize_central_port st.central_srt_port)
        (normalize_central_port req.central_srt_port)
    && st.central_path == req.central_path

abbrev pub put_state : Supervisor → String → UplinkState → Supervisor
put_state s key st = record s { uplink_states = insert key st s.uplink_states }

-- the state of an uplink that has been started once
unfoldable pub first_state : Request → UplinkState
first_state req = record {
  camera_id = req.camera_id;
  proxy_path = req.proxy_path;
  central_host = req.central_host;
  central_path = req.central_path;
  central_srt_port = req.central_srt_port;
  ttl_seconds = req.ttl_seconds;
  start_count = 1;
  stop_count = 0;
}

-- the state of an uplink that is started once more
unfoldable pub next_state : UplinkState → Request → UplinkState
next_state st req = record st {
  camera_id = req.camera_id;
  proxy_path = if req.proxy_path == "" then st.proxy_path else req.proxy_path;
  central_host = req.central_host;
  central_path = req.central_path;
  central_srt_port = req.central_srt_port;
  ttl_seconds = req.ttl_seconds;
  start_count = st.start_count + 1;
}

-- setUplinkState
unfoldable pub set_uplink_state : Supervisor → String → Request → Supervisor
unfolding uplink_state_matches first_state next_state
set_uplink_state s key req = elim (lookup key s.uplink_states) [
  | none ↦ put_state s key (first_state req)
  | some st ↦
      put_state s key (if uplink_state_matches st req then next_state st req else first_state req)
]

-- clearUplinkState
unfoldable pub clear_uplink_state : Supervisor → String → Supervisor
clear_uplink_state s key = record s { uplink_states = erase key s.uplink_states }

-- maybeStopUplinkState
unfoldable pub maybe_stop_uplink_state : Supervisor → String → Supervisor
unfolding clear_uplink_state
maybe_stop_uplink_state s key = elim (lookup key s.uplink_states) [
  | none ↦ s
  | some st ↦
      if leb st.start_count (st.stop_count + 1)
      then clear_uplink_state s key
      else put_state s key (record st { stop_count = st.stop_count + 1 })
]

-- normalizeUplinkMatch
unfoldable pub normalize_uplink_match : String → String
normalize_uplink_match value = trim_slashes (trim_space value)
