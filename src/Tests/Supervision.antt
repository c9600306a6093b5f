-- ===== src/Tests/Supervision.antt =====
-- Runs of the supervisor.
use cam_bus.Base.{
  ℕ, zero, suc, ◌+◌, ◌≤◌, Bool, true, false, String, ◌<>◌, Option, none, some, Result, ok, err,
  List, [], ◌∷◌, All, ◌≡◌, ◌≢◌, ◌⊎◌, inl, inr, refl, arith, length, ◌<◌, Distinct, eq_iff,
  if◌then◌else◌,
}
use cam_bus.Base.Int.{pos}
use cam_bus.Base.Str.{to_lower, equal_fold, trim_space, trim_slashes, split}
use cam_bus.Base.Dict.{lookup, insert}
use cam_bus.Drivers.{online}
use cam_bus.Engines.{plate_stub}
use cam_bus.Uplink.Path.{central_path_for}
use cam_bus.Uplink.Request.{Request, normalize}
use cam_bus.Uplink.Request
use cam_bus.Uplink.Manager.{Status, resolve_request}
use cam_bus.Uplink.Manager.Operations.{timer, status_for}
use cam_bus.Supervisor.{
  Supervisor, CameraWorker, key_for, upsert_camera_info, put_worker, clear_uplink_state, put_state,
  first_state, is_active, record_uplink_status, event_topic, camera_topic, uplink_status_topic,
}
use cam_bus.Supervisor.Services.{Services, refresh, publish_logged}
use cam_bus.Supervisor.Snapshots.{snapshot_for_proxy}
use cam_bus.Supervisor.Snapshots.Laws.{Nowhere, SentBy, snapshot_for_proxy-SentBy}
use cam_bus.Supervisor.Uplinks.{address_of, command_request, find_camera_info, is_final, last_part}
use cam_bus.Supervisor.Handlers.{handle_info_message, handle_uplink_message, fill_status, or_last}
use cam_bus.Supervisor.Workers.{handle_event}
use cam_bus.Supervisor.Steps.{
  Step, info_message, uplink_message, camera_event, uplink_event, shutdown, app_run,
}
use cam_bus.Supervisor.Invariant.{
  Sound, upsert_camera_info-Sound, put_worker-Sound, put_state-Sound,
}
use cam_bus.Supervisor.Soundness.{SoundApp, app_run-Sound}
use cam_bus.Supervisor.Removal.{Removed, AsksRemoval, handle_info_message-removes}
use cam_bus.Supervisor.Topics.{Slashless, named, address_of-camera_topic}
use cam_bus.Supervisor.Commands.{
  command, echoed, report, command_request-keys, handle_uplink_message-echo,
}
use cam_bus.Supervisor.Events.{PublishKeeps, EngineKeeps, handle_event_keeps}
use cam_bus.Supervisor.StatusReports.{count_all}
use cam_bus.Supervisor.StatusReports.Counting.{count_of, workers_in, same_building, count_all_lem}
use cam_bus.Tests.Fixtures.{
  Log, url_lib, no_env, logging_containers, request, empty_manager, camera, event_of_camera,
}

-- a supervisor whose broker only notes the topics
abbrev services : Services Log
services = record {
  publish = λ message w. (none, message.topic ∷ w);
  sync_proxy = some (λ infos w. "sync" ∷ w);
  sync_central = none;
  parse_info = λ payload. ok camera;
  parse_request = λ payload. ok request;
  get_driver = λ info. some (record { active_analytics = [] });
  start_worker = λ key info w. ("start " <> key) ∷ w;
  cancel_worker = λ key w. ("cancel " <> key) ∷ w;
  engines = record { engines = plate_stub ∷ []; per_engine_timeout = pos 10 };
  containers = logging_containers;
  env = no_env;
  url = url_lib;
  quote = λ s. s;
}

abbrev fresh : Supervisor
fresh = record {
  base_topic = "rtls/cameras";
  shard = "";
  cameras = [];
  uplink_states = [];
  uplink_status = [];
  workers = [];
}

fresh-Sound : Sound "rtls/cameras" fresh
unfolding lookup
fresh-Sound = record {
  same_base = refl;
  cameras_keyed = λ k i e. cc;
  workers_keyed = λ k w e. cc;
  workers_known = λ k w e. cc;
  states_active = λ k st e. cc;
  cameras_distinct = tt;
  workers_distinct = tt;
  states_distinct = tt;
}

abbrev worker : CameraWorker
worker = record {
  info = camera;
  last_event_at = none;
  status = online;
  status_since = 1;
  status_reason = "";
  ever_connected = true;
  analytics = [];
}

abbrev key : String
key = key_for camera

abbrev known : Supervisor
known = upsert_camera_info fresh key camera

-- the camera has a worker and an uplink that was started once
abbrev busy : Supervisor
busy = put_state (put_worker known key worker) key (first_state request)

camera_known : lookup key known.cameras ≢ none
unfolding upsert_camera_info lookup insert key_for
camera_known e = cc

started_once : is_active (first_state request) ≡ true
unfolding is_active first_state
started_once = refl

busy-Sound : Sound "rtls/cameras" busy
busy-Sound =
    put_state-Sound
      (put_worker-Sound (upsert_camera_info-Sound fresh-Sound camera) worker camera_known) key
      (first_state request) started_once

abbrev info_topic : String
info_topic = "rtls/cameras/acme/hq/1/camera/gate/info"

abbrev some_steps : List Step
some_steps =
    info_message info_topic "{}" 1
    ∷ (uplink_message "rtls/cameras/acme/hq/1/camera/gate/uplink/start" "{}"
        ∷ (camera_event camera event_of_camera 2
            ∷ (uplink_event (timer "hq/gate") ∷ (info_message info_topic "" 3 ∷ (shutdown ∷ [])))))

app_run-Sound_example :
    SoundApp "rtls/cameras" (app_run services some_steps (empty_manager, (busy, [])))
app_run-Sound_example = app_run-Sound services some_steps (empty_manager, (busy, [])) busy-Sound

gate_address : address_of 6 busy.base_topic info_topic ≡ some (command (named camera) "info")
unfolding address_of split upsert_camera_info
gate_address = refl

tombstone : AsksRemoval services "null"
unfolding trim_space
tombstone = inl refl

handle_info_message-removes_example :
    Removed
      (key_for (named camera))
      busy
      (handle_info_message services info_topic "null" 5 (empty_manager, (busy, []))).1.0
handle_info_message-removes_example =
    handle_info_message-removes services "rtls/cameras" info_topic "null" 5
      (command (named camera) "info") (empty_manager, (busy, [])) busy-Sound gate_address tombstone

snapshot_for_proxy-SentBy_example :
    All (λ v. Nowhere v ⊎ SentBy busy.uplink_states v) (snapshot_for_proxy busy)
snapshot_for_proxy-SentBy_example = snapshot_for_proxy-SentBy busy busy-Sound.states_distinct

names-Slashless : Slashless camera
names-Slashless = record {
  tenant = (refl, (refl, (refl, (refl, tt))));
  building = (refl, (refl, tt));
  floor = (refl, tt);
  device_type = (refl, (refl, (refl, (refl, (refl, (refl, tt))))));
  device_id = (refl, (refl, (refl, (refl, tt))));
}

uplink_start_parts : split b'/' "uplink/start" ≡ "uplink" ∷ ("start" ∷ [])
unfolding split
uplink_start_parts = refl

address_of-camera_topic_example :
    address_of 7 busy.base_topic (camera_topic busy camera "uplink/start")
    ≡ some (record { camera = named camera; action = last_part ("uplink" ∷ ("start" ∷ [])) })
address_of-camera_topic_example =
    address_of-camera_topic 7 busy camera "uplink/start" "uplink" ("start" ∷ []) names-Slashless
      uplink_start_parts (omega arith)

abbrev reported : Status
reported = record {
  camera_id = "gate";
  central_path = "hq/gate";
  container_name = "mediamtx-proxy";
  state = "running";
  exit_code = pos 0;
  error = "";
}

abbrev reporting : Supervisor
reporting = record_uplink_status busy key reported

status_recorded :
    or_last
      (status_for empty_manager (echoed empty_manager camera request))
      (lookup (key_for camera) reporting.uplink_status)
    ≡ some reported
unfolding status_for record_uplink_status upsert_camera_info lookup insert key_for
status_recorded = refl

camera_found :
    find_camera_info (fill_status (echoed empty_manager camera request) reported) reporting.cameras
    ≡ some camera
unfolding find_camera_info fill_status record_uplink_status upsert_camera_info insert equal_fold
    to_lower
camera_found = refl

has_id : camera.device_id ≢ ""
has_id e = let clash : false ≡ true = (eq_iff "gate" "").1 e in cc

handle_uplink_message-echo_example :
    let st = fill_status (echoed empty_manager camera request) reported in
    handle_uplink_message services
      (uplink_status_topic reporting camera)
      "{}"
      (empty_manager, (reporting, []))
    ≡ (let s' = record_uplink_status reporting (key_for camera) st in
        let w' = publish_logged services (report reporting camera st) [] in
        (
          empty_manager,
          if is_final st
              then refresh services (clear_uplink_state s' (key_for camera), w')
              else (s', w'),
        ))
handle_uplink_message-echo_example =
    handle_uplink_message-echo services empty_manager reporting [] camera "{}" request
      names-Slashless has_id refl status_recorded camera_found

-- a request that names a camera only
abbrev short_request : Request
short_request = record request { proxy_path = ""; central_path = "" }

short_id : (normalize short_request).camera_id ≢ ""
unfolding normalize trim_space
short_id e = let clash : false ≡ true = (eq_iff "gate" "").1 e in cc

short_proxy : (normalize short_request).proxy_path ≡ ""
unfolding normalize trim_space trim_slashes
short_proxy = refl

short_central : (normalize short_request).central_path ≡ ""
unfolding normalize trim_space trim_slashes
short_central = refl

camera_path : central_path_for camera ≢ ""
unfolding central_path_for trim_space trim_slashes split cam_bus.Base.Str.join
camera_path e = let clash : false ≡ true = (eq_iff "acme/hq/gate" "").1 e in cc

command_request-keys_example :
    (Request.key_for
        (resolve_request empty_manager (command_request (command camera "start") short_request))
      ≡ central_path_for camera)
    × (Request.key_for
          (resolve_request empty_manager (command_request (command camera "stop") short_request))
        ≡ (normalize short_request).camera_id)
command_request-keys_example =
    command_request-keys empty_manager camera short_request short_id short_proxy short_central
      camera_path

-- Every topic of the log is one of the camera's events.
abbrev OwnTopics : Log → Type 0
OwnTopics w = All (λ t. (analytic : String) × (t ≡ event_topic busy camera analytic)) w

publish_own : PublishKeeps OwnTopics services busy camera
publish_own message w (evt, _, _, at_topic, _) p = ((evt.analytic_type, at_topic), p)

plate_keeps : EngineKeeps OwnTopics plate_stub
unfolding plate_stub
plate_keeps evt w p = p

handle_event_keeps_example : OwnTopics (handle_event services busy camera event_of_camera 7 []).1
handle_event_keeps_example =
    handle_event_keeps OwnTopics services busy camera event_of_camera 7 [] publish_own
      (plate_keeps, tt) tt

abbrev two_workers : List CameraWorker
two_workers = worker ∷ (record worker { info = record camera { building = "lab" } } ∷ [])

count_all_lem_example :
    let bs = count_all two_workers [] in
    ((tenant building : String)
      → count_of tenant building bs ≡ workers_in tenant building two_workers)
    × Distinct same_building bs
    × All (λ b. 0 < b.cameras) bs
count_all_lem_example = count_all_lem two_workers
