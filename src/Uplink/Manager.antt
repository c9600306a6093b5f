-- ===== src/Uplink/Manager.antt =====
-- internal/uplink/manager.go: the uplinks that run, and how one is started and stopped.
pub mod Operations
pub mod Invariant
use Prim.Native.String
use cam_bus.Base.{
  ℕ, suc, ◌+◌, Bool, true, false, String, ◌<>◌, Option, none, some, Result, ok, err, List, [], ◌∷◌,
  ◌==◌, ◌&&◌, not, leb, any, if◌then◌else◌,
}
use cam_bus.Base.Int.{ℤ, pos, is_positive}
use cam_bus.Base.Str.{trim_space, trim_slashes, trim_prefix, is_empty}
use cam_bus.Base.Dict.{Dict, lookup, insert, erase}
use cam_bus.Base.State.{St}
use cam_bus.Core.{CameraInfo}
use cam_bus.Uplink.Env.{Env}
use cam_bus.Uplink.Request.{
  Request, apply_defaults, validate_start, key_for, same_request, normalize_always_on_key,
}
use cam_bus.Uplink.Srt.Query.{UrlLib}
use cam_bus.Uplink.Srt.Candidates.{build_srt_url_candidates}
use cam_bus.Uplink.Container.Logs.{
  Failure, plain, start_error, StartError, StartErrorKind, unsupported_option, network_failure,
  unknown, docker_failure, failure_text,
}
use cam_bus.Uplink.Container.Names.{name_for_central_path}
use cam_bus.Uplink.Container.Interface.{Containers}

-- uplinkModeContainer, uplinkModeMediaMTX, uplinkModeCentralPull
pub data Mode : Type 0 where
  container mediamtx central_pull : Mode

-- The TTL timer of a process: `nil`, or a timer that runs or was stopped.
pub data Timer : Type 0 where
  no_timer : Timer
  armed : ℤ → Timer
  stopped : Timer

-- uplinkProcess
pub record UplinkProcess : Type 0 where
  pub camera_key : String
  pub payload : Request
  pub container : String
  pub container_id : String
  pub container_status : String
  pub ttl_timer : Timer
  pub always_on : Bool
  pub start_count : ℕ
  pub stop_count : ℕ

-- Manager
pub record Manager : Type 0 where
  pub proxy_rtsp_base : String
  pub default_central_host : String
  pub default_srt_port : ℤ
  pub mode : Mode
  pub always_on : Bool
  pub always_on_paths : List String
  pub ignore_uplink : Bool
  pub uplinks : Dict UplinkProcess

-- Status, without its time stamp
pub record Status : Type 0 where
  pub camera_id : String
  pub central_path : String
  pub container_name : String
  pub state : String
  pub exit_code : ℤ
  pub error : String

-- What the manager calls: the containers, the status hook, the environment and `net/url`.
pub record Outside (W : Type 0) : Type 0 where
  pub containers : Containers W
  pub hook : Status → W → W
  pub env : Env
  pub url : UrlLib
  pub quote : String → String

abbrev is_nil {ℓ} : {A : Type ℓ} → List A → Bool
is_nil [] = true
is_nil (_ ∷ _) = false

-- whether uplinks run as containers of this process
unfoldable pub runs_containers : Mode → Bool
runs_containers container = true
runs_containers mediamtx = false
runs_containers central_pull = false

-- the test that `isAlwaysOnRequest` and `AlwaysOnEnabled` share
unfoldable pub is_always_on : Manager → List String → Bool
is_always_on m candidates =
    if m.ignore_uplink
    then true
    else if m.always_on
    then true
    else any
        (λ raw.
          not (is_empty raw) && any (λ key. key == normalize_always_on_key raw) m.always_on_paths)
        candidates

-- isAlwaysOnRequest
unfoldable pub is_always_on_request : Manager → Request → Bool
unfolding is_always_on
is_always_on_request m req = is_always_on m (req.central_path ∷ req.proxy_path ∷ req.camera_id ∷ [])

-- AlwaysOnEnabled
unfoldable pub always_on_enabled : Manager → CameraInfo → Bool
unfolding is_always_on
always_on_enabled m info =
    is_always_on m (info.central_path ∷ info.proxy_path ∷ info.device_id ∷ [])

-- (*Manager).applyDefaults, ResolveRequest
unfoldable pub resolve_request : Manager → Request → Request
unfolding apply_defaults
resolve_request m = apply_defaults m.default_central_host m.default_srt_port

pub stop_timer : Timer → Timer
stop_timer no_timer = no_timer
stop_timer (armed _) = stopped
stop_timer stopped = stopped

-- refreshTTL
unfoldable pub refresh_ttl : Manager → UplinkProcess → ℤ → UplinkProcess
refresh_ttl m proc ttl = record proc {
  ttl_timer =
      if m.ignore_uplink
      then no_timer
      else if proc.always_on
      then no_timer
      else if is_positive ttl
      then armed ttl
      else no_timer;
}

-- isRetriableStartError
unfoldable pub is_retriable_start_error : Failure → Bool
is_retriable_start_error (plain _) = false
is_retriable_start_error (start_error e) = elim e.kind [
  | unsupported_option ↦ false
  | network_failure ↦ true
  | unknown ↦ true
  | docker_failure ↦ false
]

abbrev is_unsupported : StartErrorKind → Bool
is_unsupported unsupported_option = true
is_unsupported _ = false

-- the name that a new uplink's container gets
unfoldable pub container_name : Mode → String → String
container_name container path = name_for_central_path path
container_name mediamtx _ = "mediamtx-proxy"
container_name central_pull _ = "central-pull"

unfoldable pub status_of : Request → String → String → String → Status
status_of req name state error = record {
  camera_id = req.camera_id;
  central_path = req.central_path;
  container_name = name;
  state = state;
  exit_code = pos 0;
  error = error;
}

unfoldable pub new_process : String → Request → String → String → Bool → UplinkProcess
new_process key req name id always_on = record {
  camera_key = key;
  payload = req;
  container = name;
  container_id = id;
  container_status = "running";
  ttl_timer = no_timer;
  always_on = always_on;
  start_count = 1;
  stop_count = 0;
}

abbrev pub put : Manager → String → UplinkProcess → Manager
put m key proc = record m { uplinks = insert key proc m.uplinks }

abbrev pub remove : Manager → String → Manager
remove m key = record m { uplinks = erase key m.uplinks }

module _ {W : Type 0} (o : Outside W) where
  open o use {containers, hook, env, url, quote}

  unfoldable pub failure_status : Failure → String
  failure_status (plain e) = e
  failure_status (start_error e) =
      if is_unsupported e.kind && not (e.summary == "")
      then e.summary
      else failure_text quote (start_error e)

  after_stop : UplinkProcess → String → Option Failure → Status
  after_stop proc reason none = status_of proc.payload proc.container "stopped" reason
  after_stop proc reason (some f) =
      status_of proc.payload proc.container "error" (failure_text quote f)

  -- stopProcess: the process with its timer stopped, and the world after the container and the hook
  unfoldable pub stop_process : Manager → UplinkProcess → String → W → UplinkProcess × W
  unfolding stop_timer runs_containers after_stop
  stop_process m proc reason w =
      let proc' = record proc { ttl_timer = stop_timer proc.ttl_timer } in
      if runs_containers m.mode
      then (let (failed, w') = containers.stop proc.container w in
          (proc', hook (after_stop proc reason failed) w'))
      else (proc', hook (after_stop proc reason none) w)

  -- the loop over the SRT candidates: a container's identity, or the last failure
  unfoldable pub try_candidates : String → String → List String → W → Result Failure String × W
  unfolding is_retriable_start_error
  try_candidates name proxy_url [] w = (ok "", w)
  try_candidates name proxy_url (srt_url ∷ more) w =
      let (r, w') =
        containers.start (record { name = name; proxy_url = proxy_url; srt_url = srt_url }) w in
      let rest = try_candidates name proxy_url more w' in
      if srt_url == "" then (err (plain "srt url required"), w) else elim r [
        | ok id ↦ (ok id, w')
        | err f ↦ if is_retriable_start_error f && not (is_nil more) then rest else (err f, w')
      ]

  unfoldable pub started :
      Manager
      → String
      → Request
      → String
      → Bool
      → Result Failure String
      → W
      → Option String × Manager × W
  unfolding refresh_ttl new_process status_of failure_status
  started m key req name always_on (err f) w = (
    some ("start container uplink: " <> failure_text quote f),
    m,
    hook (status_of req name "error" (failure_status f)) w,
  )
  started m key req name always_on (ok id) w = (
    none,
    put m key (refresh_ttl m (new_process key req name id always_on) req.ttl_seconds),
    hook (status_of req name "running" "") w,
  )

  unfoldable pub with_candidates :
      Manager
      → String
      → Request
      → Bool
      → Result String (List String)
      → W
      → Option String × Manager × W
  unfolding started status_of runs_containers container_name try_candidates
  with_candidates m key req always_on (err message) w = (
    some ("build srt candidates: " <> message),
    m,
    hook (status_of req (container_name m.mode req.central_path) "error" message) w,
  )
  with_candidates m key req always_on (ok candidates) w =
      let name = container_name m.mode req.central_path in
      if runs_containers m.mode
      then (let proxy_url = m.proxy_rtsp_base <> "/" <> trim_prefix req.proxy_path "/" in
          let urls = if is_nil candidates then "" ∷ [] else candidates in
          let (r, w') = try_candidates name proxy_url urls w in
          started m key req name always_on r w')
      else started m key req name always_on (ok "") w

  -- `startUplink` below the treatment of an uplink that already has the key
  unfoldable pub start_new : Manager → String → Request → W → Option String × Manager × W
  unfolding with_candidates is_always_on_request
  start_new m key req =
      with_candidates m key req (is_always_on_request m req)
        (build_srt_url_candidates url env req.central_host req.central_srt_port req.central_path)

  -- one more start of an uplink that runs already
  unfoldable pub start_again : Manager → String → UplinkProcess → Request → Manager
  unfolding refresh_ttl is_always_on_request
  start_again m key existing req = put m key (
      refresh_ttl m
        (record existing {
          start_count = existing.start_count + 1;
          always_on = is_always_on_request m req;
        })
        req.ttl_seconds)

  -- startUplink. A process that is replaced stays in the map until the new one is put there.
  unfoldable pub start_uplink : Manager → String → Request → W → Option String × Manager × W
  unfolding start_new start_again stop_process
  start_uplink m key req w = elim (lookup key m.uplinks) [
    | none ↦ start_new m key req w
    | some existing ↦
        if same_request existing.payload req
        then (none, start_again m key existing req, w)
        else (let (old, w') = stop_process m existing "restarting with new payload" w in
            start_new (put m key old) key req w')
  ]

  -- stopUplink
  unfoldable pub stop_uplink : Manager → String → String → W → Option String × Manager × W
  unfolding stop_process
  stop_uplink m key reason w =
      if m.ignore_uplink then (none, m, w) else elim (lookup key m.uplinks) [
        | none ↦ (some "uplink not running", m, w)
        | some proc ↦
            let proc' = record proc { stop_count = proc.stop_count + 1 } in
            if leb proc.start_count (proc.stop_count + 1)
            then (let (_, w') = stop_process m proc' reason w in (none, remove m key, w'))
            else (none, put m key proc', w)
      ]
