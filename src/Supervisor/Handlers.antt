-- ===== src/Supervisor/Handlers.antt =====
-- internal/supervisor/supervisor.go: the handlers of the messages, the cleanup of a camera, and what
-- acts on the supervisor and its uplink manager.
use cam_bus.Base.{
  ℕ, String, ◌<>◌, Option, none, some, Result, ok, err, List, [], ◌∷◌, ◌==◌, ◌||◌, not,
  if◌then◌else◌,
}
use cam_bus.Base.Int.{pos, is_positive, is_negative}
use cam_bus.Base.Str.{trim_space, trim_by, is_char, to_lower}
use cam_bus.Base.Dict.{Dict, lookup, insert}
use cam_bus.Core.{CameraInfo}
use cam_bus.Uplink.Path.{central_path_for}
use cam_bus.Uplink.Request.{Request, normalize, validate}
use cam_bus.Uplink.Manager.{Manager, Status, always_on_enabled, resolve_request}
use cam_bus.Uplink.Manager.Operations.{start, stop, status_for, stop_by_camera}
use cam_bus.Supervisor.{
  Supervisor, CameraWorker, UplinkState, key_for, active_uplink_state, set_uplink_state,
  clear_uplink_state, maybe_stop_uplink_state, upsert_camera_info, remove_camera_info,
}
use cam_bus.Supervisor.Services.{Services, refresh}
use cam_bus.Supervisor.Discovery.{publish_ha_discovery}
use cam_bus.Supervisor.Workers.{start_or_update_camera, stop_camera}
use cam_bus.Supervisor.Uplinks.{Address, address_of, command_request, handle_uplink_status, outside}

-- the proxy path of a camera that names none
default_proxy_path : CameraInfo → String
default_proxy_path i =
    let id = trim_space i.device_id in
    if id == ""
    then trim_by (is_char b'_')
        (i.tenant <> "_" <> i.building <> "_" <> i.floor <> "_" <> i.device_id)
    else id

-- a camera's information under the names of its topic, its texts trimmed and its paths filled in
unfoldable pub named_info : CameraInfo → CameraInfo → CameraInfo
unfolding default_proxy_path
named_info address given =
    let i : CameraInfo = record given {
      tenant = address.tenant;
      building = address.building;
      floor = address.floor;
      device_type = address.device_type;
      device_id = address.device_id;
      rtsp_url = trim_space given.rtsp_url;
      central_host = trim_space given.central_host;
    } in
    let proxy = trim_space given.proxy_path in
    let central = trim_space given.central_path in
    record i {
      proxy_path = if proxy == "" then default_proxy_path i else proxy;
      central_path = if central == "" then central_path_for i else central;
    }

-- the central host of a camera whose uplink is not commanded
unfoldable pub central_defaults : Manager → CameraInfo → CameraInfo
central_defaults m i =
    if m.ignore_uplink || always_on_enabled m i
    then record i {
      central_host = if i.central_host == "" then m.default_central_host else i.central_host;
      central_path = if i.central_path == "" then central_path_for i else i.central_path;
    }
    else i

-- the camera is recorded where a retention is given
unfoldable pub recording : CameraInfo → CameraInfo
recording i = record i {
  record_retention_minutes =
      if is_negative i.record_retention_minutes then pos 0 else i.record_retention_minutes;
  record_enabled = is_positive i.record_retention_minutes;
  pre_roll_seconds = if is_negative i.pre_roll_seconds then pos 0 else i.pre_roll_seconds;
}

-- the information that `handleInfoMessage` works with
unfoldable pub clean_info : Manager → CameraInfo → CameraInfo → CameraInfo
unfolding named_info central_defaults recording
clean_info m address given = recording (central_defaults m (named_info address given))

-- the information of a camera whose uplink runs
unfoldable pub with_uplink : UplinkState → CameraInfo → CameraInfo
with_uplink st i = record i {
  central_host = if st.central_host == "" then i.central_host else st.central_host;
  central_path = if st.central_path == "" then i.central_path else st.central_path;
  central_srt_port =
      if is_positive st.central_srt_port then st.central_srt_port else i.central_srt_port;
  proxy_path = if st.proxy_path == "" then i.proxy_path else st.proxy_path;
}

-- the request of an uplink that is always on
unfoldable pub always_on_request : CameraInfo → Request
always_on_request i = normalize (record {
  camera_id = i.device_id;
  proxy_path = i.proxy_path;
  central_host = i.central_host;
  central_srt_port = i.central_srt_port;
  central_path = i.central_path;
  ttl_seconds = pos 0;
})

unfoldable pub fill_status : Request → Status → Status
fill_status req st = record st {
  camera_id = if st.camera_id == "" then req.camera_id else st.camera_id;
  central_path = if st.central_path == "" then req.central_path else st.central_path;
}

abbrev pub or_last {ℓ} : {A : Type ℓ} → Option A → Option A → Option A
or_last (some a) o = some a
or_last none o = o

-- The program: the uplink manager, the supervisor and the world.
abbrev pub App : Type 0 → Type 0
App W = Manager × (Supervisor × W)

module _ {W : Type 0} (sv : Services W) where
  -- cleanupCamera
  unfoldable pub cleanup_camera : CameraInfo → App W → App W
  cleanup_camera info (m, (s, w)) =
      let key = key_for info in
      let (s1, w1) = stop_camera sv s key w in
      let s2 = clear_uplink_state (remove_camera_info s1 key) key in
      let (m', sw) = stop_by_camera (outside sv) m info (s2, w1) in (m', refresh sv sw)

  unfoldable pub cleanup_each : List (String × CameraInfo) → App W → App W
  unfolding cleanup_camera
  cleanup_each [] a = a
  cleanup_each ((_, info) ∷ more) a = cleanup_each more (cleanup_camera info a)

  unfoldable pub with_workers : Dict CameraWorker → Dict CameraInfo → Dict CameraInfo
  with_workers [] d = d
  with_workers ((key, worker) ∷ more) d = with_workers more (insert key worker.info d)

  -- stopAll
  unfoldable pub stop_all : App W → App W
  unfolding cleanup_each with_workers
  stop_all (m, (s, w)) = cleanup_each (with_workers s.workers s.cameras) (m, (s, w))

  -- The uplink of a camera that is always on. A failed start is only logged.
  unfoldable pub always_on_uplink : CameraInfo → App W → App W
  always_on_uplink info (m, sw) =
      let key = key_for info in
      let req = always_on_request info in
      let (e, m1, sw1) = start (outside sv) m req sw in
      let (m2, (s2, w2)) = stop_by_camera (outside sv) m info sw in
      if not (always_on_enabled m info)
      then (m, sw)
      else if trim_space info.central_host == ""
      then (m2, refresh sv (clear_uplink_state s2 key, w2))
      else elim e [
        | some _ ↦ (m1, sw1)
        | none ↦ (m1, refresh sv (set_uplink_state sw1.0 key req, sw1.1))
      ]

  -- the information of an active uplink replaces the camera's
  unfoldable pub adopt_uplink : CameraInfo → Supervisor × W → CameraInfo × (Supervisor × W)
  adopt_uplink info (s, w) =
      let key = key_for info in
      elim (active_uplink_state s key) [
        | none ↦ (info, (s, w))
        | some st ↦
            let info' = with_uplink st info in
            (info', refresh sv (upsert_camera_info s key info', w))
      ]

  -- `handleInfoMessage` for a camera that is enabled
  unfoldable pub enable_camera : CameraInfo → ℕ → App W → App W
  unfolding always_on_uplink adopt_uplink
  enable_camera info now (m, (s, w)) =
      let (info', sw1) = adopt_uplink info (upsert_camera_info s (key_for info) info, w) in
      let (m', (s2, w2)) = always_on_uplink info' (m, sw1) in
      let (_, w3) = publish_ha_discovery sv s2 info' w2 in
      (m', start_or_update_camera sv s2 info' now w3)

  unfoldable pub info_received : CameraInfo → Result String CameraInfo → ℕ → App W → App W
  unfolding enable_camera cleanup_camera
  info_received address (err _) now a = a
  info_received address (ok given) now a =
      let info = clean_info a.0 address given in
      if info.enabled then enable_camera info now a else cleanup_camera info a

  -- handleInfoMessage. A payload that is empty or `null` removes the camera.
  unfoldable pub handle_info_message : String → String → ℕ → App W → App W
  unfolding info_received cleanup_camera
  handle_info_message topic payload now a = elim (address_of 6 a.1.0.base_topic topic) [
    | none ↦ a
    | some at ↦
        if trim_space payload == "" || trim_space payload == "null"
        then cleanup_camera at.camera a
        else info_received at.camera (sv.parse_info payload) now a
  ]

  unfoldable pub command_start : CameraInfo → Request → App W → App W
  command_start camera req (m, sw) =
      let (e, m', (s', w')) = start (outside sv) m req sw in
      elim e [
        | some _ ↦ (m', (s', w'))
        | none ↦ (m', refresh sv (set_uplink_state s' (key_for camera) req, w'))
      ]

  unfoldable pub command_stop : CameraInfo → Request → App W → App W
  command_stop camera req (m, sw) =
      let (e, m', (s', w')) = stop (outside sv) m req sw in
      if always_on_enabled m camera then (m, sw) else elim e [
        | some _ ↦ (m', (s', w'))
        | none ↦ (m', refresh sv (maybe_stop_uplink_state s' (key_for camera), w'))
      ]

  unfoldable pub command_status : CameraInfo → Request → App W → App W
  unfolding fill_status
  command_status camera req (m, sw) =
      elim (or_last (status_for m req) (lookup (key_for camera) sw.0.uplink_status)) [
        | none ↦ (m, sw)
        | some st ↦ (m, handle_uplink_status sv (fill_status req st) sw)
      ]

  unfoldable pub command_received : Address → Request → App W → App W
  unfolding command_start command_stop command_status
  command_received at req a =
      let action = to_lower at.action in
      if action == "start"
      then command_start at.camera req a
      else if action == "stop"
      then command_stop at.camera req a
      else if action == "status"
      then command_status at.camera req a
      else a

  unfoldable pub request_received : Address → Result String Request → App W → App W
  unfolding command_received
  request_received at (err _) a = a
  request_received at (ok given) a =
      let req = resolve_request a.0 (command_request at given) in
      elim (validate req) [ some _ ↦ a | none ↦ command_received at req a ]

  -- handleUplinkMessage
  unfoldable pub handle_uplink_message : String → String → App W → App W
  unfolding request_received
  handle_uplink_message topic payload a = elim (address_of 7 a.1.0.base_topic topic) [
    | none ↦ a
    | some at ↦ request_received at (sv.parse_request payload) a
  ]
