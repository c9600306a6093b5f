-- ===== src/Uplink/Manager/Operations.antt =====
-- internal/uplink/manager.go: the operations of the manager, and the events that act on it.
pub mod Invariant
pub mod Counting
pub mod Launching
pub mod Starting
pub mod Ignoring
pub mod Settings
pub mod Worlds
use Prim.Native.String
use cam_bus.Base.{
  ℕ, suc, ◌+◌, Bool, true, false, String, ◌<>◌, Option, none, some, Result, ok, err, List, [], ◌∷◌,
  ◌++◌, map, ◌==◌, ◌&&◌, ◌||◌, not, leb, any, if◌then◌else◌, keep,
}
use cam_bus.Base.Int.{ℤ, pos, is_positive}
use cam_bus.Base.Str.{trim_space, trim_slashes, is_empty, to_lower, contains, trim_suffix}
use cam_bus.Base.Str.Decimal.{scan_int, show_int}
use cam_bus.Base.Dict.{Dict, lookup, insert, erase}
use cam_bus.Core.{CameraInfo}
use cam_bus.Uplink.Env.{Env, getenv, getenv_bool, getenv_int, parse_list_env}
use cam_bus.Uplink.Request.{Request, validate_start, key_for}
use cam_bus.Uplink.Srt.Query.{UrlLib, Url}
use cam_bus.Uplink.Container.Logs.{Failure}
use cam_bus.Uplink.Container.Start
use cam_bus.Uplink.Manager.{
  Mode, container, mediamtx, central_pull, UplinkProcess, Manager, Status, Outside, runs_containers,
  is_always_on_request, resolve_request, status_of, put, remove, stop_timer, stop_process,
  start_uplink, stop_uplink,
}

-- normalizeMode
unfoldable pub normalize_mode : String → Mode
normalize_mode raw =
    let value = to_lower (trim_space raw) in
    if value == "mediamtx"
    then mediamtx
    else if value == "central-pull"
    then central_pull
    else container

abbrev positive_or_zero : Option ℤ → ℤ
positive_or_zero none = pos 0
positive_or_zero (some x) = if is_positive x then x else pos 0

host_and_port : Url → String × ℤ
host_and_port u =
    let host = trim_space u.hostname in
    let port = trim_space u.port in
    if host == ""
    then ("", pos 0)
    else if port == ""
    then (host, pos 0)
    else (host, positive_or_zero (scan_int port))

-- parseCentralURL
unfoldable pub parse_central_url : UrlLib → String → String × ℤ
unfolding host_and_port
parse_central_url url raw =
    let trimmed = trim_space raw in
    if trimmed == ""
    then ("", pos 0)
    else elim (url.parse (if contains trimmed "://" then trimmed else "srt://" <> trimmed)) [
      | err _ ↦ ("", pos 0)
      | ok u ↦ host_and_port u
    ]

-- NewManagerFromEnv, without the reconciler that it starts
unfoldable pub new_manager_from_env : UrlLib → Env → Manager
unfolding normalize_mode parse_central_url
new_manager_from_env url env =
    let always_on = getenv_bool env "UPLINK_ALWAYS_ON" false in
    let host = trim_space (env "UPLINK_CENTRAL_HOST") in
    let port = getenv_int env "UPLINK_CENTRAL_SRT_PORT" (pos 8890) in
    let central = parse_central_url url (env "MEDIAMTX_CENTRAL_URL") in
    let use_central = always_on && host == "" in
    record {
      proxy_rtsp_base =
          trim_suffix (getenv env "UPLINK_PROXY_RTSP_BASE" "rtsp://localhost:8554") "/";
      default_central_host = if use_central && not (central.0 == "") then central.0 else host;
      default_srt_port = if use_central && is_positive central.1 then central.1 else port;
      mode = normalize_mode (env "UPLINK_MODE");
      always_on = always_on;
      always_on_paths = parse_list_env (env "UPLINK_ALWAYS_ON_PATHS");
      ignore_uplink = getenv_bool env "IGNORE_UPLINK" false;
      uplinks = [];
    }

abbrev state_or_running : String → String
state_or_running state = if state == "" then "running" else state

-- statusFromProcess
unfoldable pub status_from_process : UplinkProcess → Status
unfolding status_of
status_from_process proc =
    status_of proc.payload proc.container (state_or_running (trim_space proc.container_status)) ""

status_matches : Request → UplinkProcess → Bool
status_matches req proc =
    not (req.central_path == "") && proc.payload.central_path == req.central_path
    || not (req.camera_id == "") && proc.payload.camera_id == req.camera_id

-- the loop of `StatusFor`, in the order in which the map is visited
find_status : Request → Dict UplinkProcess → Option Status
unfolding status_matches status_from_process
find_status req [] = none
find_status req ((_, proc) ∷ more) =
    if status_matches req proc then some (status_from_process proc) else find_status req more

-- StatusFor
unfoldable pub status_for : Manager → Request → Option Status
unfolding find_status
status_for m req = find_status (resolve_request m req) m.uplinks

-- uplinkSnapshot
pub record UplinkSnapshot : Type 0 where
  pub camera_key : String
  pub camera_id : String
  pub central_path : String
  pub container : String
  pub container_id : String

-- snapshotUplinks
unfoldable pub snapshot_uplinks : Manager → List UplinkSnapshot
snapshot_uplinks m =
    map
      (λ (_, proc). record {
        camera_key = proc.camera_key;
        camera_id = proc.payload.camera_id;
        central_path = proc.payload.central_path;
        container = proc.container;
        container_id = proc.container_id;
      })
      m.uplinks

-- the keys that `StopByCamera` looks up, in one of the orders in which it may visit them
unfoldable pub stop_candidates : CameraInfo → List String
stop_candidates info =
    keep (λ key. not (is_empty key))
      (trim_slashes (trim_space info.central_path)
        ∷ trim_slashes (trim_space info.proxy_path)
        ∷ trim_space info.device_id
        ∷ [])

-- What acts on a manager: commands, timers, the reconciler and the supervisor's shutdown. The
-- reconciler unlocks the manager between two inspections, so a round may come with an old snapshot,
-- after any other event.
pub data Event : Type 0 where
  start_command stop_command : Request → Event
  timer late_timer : String → Event
  camera_gone : CameraInfo → Event
  reconcile_round : UplinkSnapshot → Event
  reconcile shutdown : Event

module _ {W : Type 0} (o : Outside W) where
  -- Start: the message of its error
  unfoldable pub start : Manager → Request → W → Option String × Manager × W
  start m given w =
      let req = resolve_request m given in
      elim (validate_start req) [
        | some e ↦ (some e, m, w)
        | none ↦ start_uplink o m (key_for req) req w
      ]

  -- Stop
  unfoldable pub stop : Manager → Request → W → Option String × Manager × W
  stop m given w =
      let req = resolve_request m given in
      if is_always_on_request m req
      then (none, m, w)
      else stop_uplink o m (key_for req) "stop command" w

  -- The callback of a TTL timer, where the timer was replaced or stopped meanwhile. An error is only
  -- logged.
  unfoldable pub ttl_expired : Manager → String → W → Manager × W
  ttl_expired m key w = let (_, m', w') = stop_uplink o m key "ttl expired" w in (m', w')

  -- a timer that fired does not fire again
  spend_timer : Manager → String → Manager
  spend_timer m key = elim (lookup key m.uplinks) [
    | none ↦ m
    | some proc ↦ put m key (record proc { ttl_timer = stop_timer proc.ttl_timer })
  ]

  -- The current timer of a process fires.
  unfoldable pub timer_fires : Manager → String → W → Manager × W
  unfolding spend_timer ttl_expired stop_timer
  timer_fires m key w = ttl_expired (spend_timer m key) key w

  stop_key : Manager → String → String → W → Manager × W
  stop_key m reason key w = elim (lookup key m.uplinks) [
    | none ↦ (m, w)
    | some proc ↦ let (_, w') = stop_process o m proc reason w in (remove m key, w')
  ]

  stop_keys : String → List String → Manager → W → Manager × W
  unfolding stop_key
  stop_keys reason [] m w = (m, w)
  stop_keys reason (key ∷ keys) m w =
      let (m', w') = stop_key m reason key w in stop_keys reason keys m' w'

  -- StopByCamera
  unfoldable pub stop_by_camera : Manager → CameraInfo → W → Manager × W
  unfolding stop_keys
  stop_by_camera m info w =
      if m.ignore_uplink || m.always_on
      then (m, w)
      else stop_keys "camera cleanup" (stop_candidates info) m w

  -- StopAll
  unfoldable pub stop_all : Manager → W → Manager × W
  unfolding stop_keys
  stop_all m w =
      if m.ignore_uplink then (m, w) else stop_keys "shutdown" (map (λ (key, _). key) m.uplinks) m w

  -- a container that runs: its state is noted
  note_running : Manager → UplinkSnapshot → String → Manager
  note_running m snap state = elim (lookup snap.camera_key m.uplinks) [
    | none ↦ m
    | some proc ↦
        if proc.container == snap.container
        then put m snap.camera_key (record proc { container_status = state })
        else m
  ]

  -- a container that does not run: its uplink is stopped
  drop_stopped : Manager → UplinkSnapshot → String → String → W → Manager × W
  drop_stopped m snap state reason w = elim (lookup snap.camera_key m.uplinks) [
    | none ↦ (m, w)
    | some proc ↦
        if proc.container == snap.container
        then (let (_, w') = stop_process o m (record proc { container_status = state }) reason w in
            (remove m snap.camera_key, w'))
        else (m, w)
  ]

  inspected : Manager → UplinkSnapshot → Result Failure Start.Status → W → Manager × W
  unfolding note_running drop_stopped
  inspected m snap (err _) w = (m, w)
  inspected m snap (ok status) w =
      let state_err = trim_space status.error in
      let w' =
        o.hook
          (record {
            camera_id = snap.camera_id;
            central_path = snap.central_path;
            container_name = snap.container;
            state = status.state;
            exit_code = status.exit_code;
            error = state_err;
          })
          w in
      if status.state == "running"
      then (note_running m snap status.state, w')
      else drop_stopped m snap status.state
          ("container state="
            <> status.state
            <> " exitCode="
            <> show_int status.exit_code
            <> " stateError="
            <> state_err)
          w'

  -- one round of the loop of `reconcileOnce`
  reconcile_one : Manager → UplinkSnapshot → W → Manager × W
  unfolding inspected
  reconcile_one m snap w =
      let (r, w') = o.containers.inspect_status snap.container w in inspected m snap r w'

  reconcile_each : List UplinkSnapshot → Manager → W → Manager × W
  unfolding reconcile_one
  reconcile_each [] m w = (m, w)
  reconcile_each (snap ∷ snaps) m w =
      let (m', w') = reconcile_one m snap w in reconcile_each snaps m' w'

  -- reconcileOnce, where nothing else acts on the manager during the round
  unfoldable pub reconcile_once : Manager → W → Manager × W
  unfolding reconcile_each
  reconcile_once m w =
      if runs_containers m.mode then reconcile_each (snapshot_uplinks m) m w else (m, w)

  unfoldable pub step : Manager → Event → W → Manager × W
  unfolding start stop timer_fires stop_by_camera reconcile_once stop_all
  step m (start_command req) w = let (_, m', w') = start m req w in (m', w')
  step m (stop_command req) w = let (_, m', w') = stop m req w in (m', w')
  step m (timer key) w = timer_fires m key w
  step m (late_timer key) w = ttl_expired m key w
  step m (camera_gone info) w = stop_by_camera m info w
  step m (reconcile_round snap) w = reconcile_one m snap w
  step m reconcile w = reconcile_once m w
  step m shutdown w = stop_all m w

  unfoldable pub run : Manager → List Event → W → Manager × W
  unfolding step
  run m [] w = (m, w)
  run m (e ∷ es) w = let (m', w') = step m e w in run m' es w'
