-- ===== src/Tests/Servers.antt =====
-- Runs of the MediaMTX generator, the engines and the face engine.
use Prim.Native.Nat.{min}
use cam_bus.Drivers.{get_driver, register_driver}
use cam_bus.Base.{
  ℕ, ◌*◌, ◌≤◌, String, Option, ◌<>◌, true, false, none, some, ok, [], ◌∷◌, ◌++◌, ◌≡◌, ◌≢◌, inr,
  refl, eq_iff,
}
use cam_bus.Base.Int.{pos, negsuc, is_positive, is_negative}
use cam_bus.Core.{CameraInfo}
use cam_bus.Engines.{Engine, derived, panicked, process_each}
use cam_bus.Engines.Isolation.{Fails, process_each_without}
use cam_bus.Core.{AnalyticEvent}
use cam_bus.FaceEngine.{
  Client, FaceEvent, process_face_capture, recognized, snapshot_of, is_face_type,
}
use cam_bus.FaceEngine.Evidence.{FromImage, process_face_capture-FromImage}
use cam_bus.Base.Str.{to_lower, trim_space}
use cam_bus.MediaMtx.Config.{Config, minute, base_config, retention_for_camera, join_command_args}
use cam_bus.MediaMtx.Generator.{Generator, Lib, build_config}
use cam_bus.MediaMtx.Api.{Bytes, Lib as ApiLib, System, server, write_config}
use cam_bus.Base.Str.{has_suffix}
use cam_bus.MediaMtx.Api.Twice.{IsFile, reread, sync_twice, sync_never_idle}
use cam_bus.MediaMtx.Sync.{write_and_apply, apply_config_via_api, sync, plan, global_patch}
use cam_bus.MediaMtx.Applying.{Applied, serve_all, serve_all-plan, Has}
use cam_bus.MediaMtx.Rebuilding.{build_config-NodupKeys}
use cam_bus.MediaMtx.Retention.{retention_for_camera_lem}
use cam_bus.MediaMtx.Shell.{shell_words, shell_words-join_command_args}
use cam_bus.Tests.Fixtures.{Log, url_lib, no_env, camera, event_of_camera}

shell_words-join_command_args_example :
    shell_words (join_command_args ("republish" ∷ ("it's" ∷ ("" ∷ ("srt://central?a=1&b=2" ∷ [])))))
    ≡ some ("republish" ∷ ("it's" ∷ ("" ∷ ("srt://central?a=1&b=2" ∷ []))))
shell_words-join_command_args_example =
    shell_words-join_command_args ("republish" ∷ ("it's" ∷ ("" ∷ ("srt://central?a=1&b=2" ∷ []))))

abbrev lib : Lib
lib = record {
  parse_duration = λ s. none;
  duration_string = λ n. "0s";
  url = url_lib;
  env = no_env;
  parse_api = λ s. none;
}

abbrev generator : Generator
generator = record {
  path = "/etc/mediamtx.yml";
  reload_pid = pos 0;
  api_base_url = "http://mtx:9997";
  reload_auth_user = "";
  reload_auth_pass = "";
  reload_auth_token = "";
  api_user = "";
  api_pass = "";
  record_delete_after = 600000000000;
  republish_on_ready = false;
  proxy_rtsp_base = "rtsp://localhost:8554";
  ignore_uplink = false;
  default_central_host = "";
  use_central_paths = false;
  source_from_proxy = false;
  preserve_defaults = false;
}

abbrev recorded_camera : CameraInfo
recorded_camera = record camera {
  rtsp_url = "rtsp://10.0.0.10/1";
  record_enabled = true;
  record_retention_minutes = pos 5;
}

get_driver_spelling :
    get_driver
      (register_driver "Hik Vision" "DS-2CD" (pos 7) [])
      (record camera { manufacturer = "hikvision"; model = "ds_2cd" })
    ≡ some (pos 7)
unfolding get_driver register_driver cam_bus.Base.Dict.lookup cam_bus.Base.Dict.insert
get_driver_spelling = refl

retention_wraps :
    retention_for_camera
      (record recorded_camera { record_retention_minutes = pos 200000000 })
      600000000000
    ≡ negsuc 6446744073709551615
unfolding retention_for_camera
retention_wraps = refl

retention_for_camera_lem_example :
    let kept = retention_for_camera recorded_camera 600000000000 in
    (is_positive recorded_camera.record_retention_minutes ≡ false → kept ≡ pos 600000000000)
    × ((n : ℕ)
        → recorded_camera.record_retention_minutes ≡ pos n
        → 1 ≤ n
        → n ≤ 153722867
        → kept ≡ pos (min (n * minute) 600000000000))
    × ((n : ℕ)
        → recorded_camera.record_retention_minutes ≡ pos n
        → 153722868 ≤ n
        → n ≤ 307445734
        → is_negative kept ≡ true)
retention_for_camera_lem_example = retention_for_camera_lem recorded_camera 600000000000

abbrev no_config : Config
no_config = base_config lib.duration_string 600000000000 "" ""

has_path : generator.path ≢ ""
has_path e = let clash : false ≡ true = (eq_iff "/etc/mediamtx.yml" "").1 e in cc

abbrev other_camera : CameraInfo
other_camera = record recorded_camera { device_id = "yard" }

abbrev old_config : Config
old_config = build_config lib generator none (recorded_camera ∷ [])

abbrev new_config : Config
new_config = build_config lib generator none (other_camera ∷ [])

abbrev applied : Applied
applied = record {
  global = global_patch old_config;
  defaults = old_config.path_defaults;
  paths = old_config.paths;
}

serve_all-plan_example :
    (b : Applied) × (serve_all (plan old_config new_config) applied ≡ some b)
    × (b.global ≡ global_patch new_config)
    × (b.defaults ≡ new_config.path_defaults)
    × Has b new_config.paths
serve_all-plan_example =
    serve_all-plan old_config new_config applied
      (build_config-NodupKeys lib generator none (recorded_camera ∷ []))
      (build_config-NodupKeys lib generator none (other_camera ∷ [])) (λ k. refl)

-- an engine that notes every event and then panics
abbrev panicking : Engine Log
panicking = record { name = "broken"; enabled = true; process = λ evt w. (panicked, "broken" ∷ w) }

-- an engine that passes the event on
abbrev echoing : Engine Log
echoing = record {
  name = "echo";
  enabled = true;
  process = λ evt w. (derived (evt ∷ []), "echo" ∷ w);
}

panics : Fails panicking event_of_camera (process_each (echoing ∷ []) event_of_camera []).1
panics = inr refl

process_each_without_example :
    let w₁ = (process_each (echoing ∷ []) event_of_camera []).1 in
    process_each ((echoing ∷ []) ++ (panicking ∷ (echoing ∷ []))) event_of_camera [] ≡ (
      (process_each (echoing ∷ []) event_of_camera []).0
          ++ (process_each (echoing ∷ []) event_of_camera ("broken" ∷ w₁)).0,
      (process_each (echoing ∷ []) event_of_camera ("broken" ∷ w₁)).1,
    )
process_each_without_example =
    process_each_without (echoing ∷ []) (echoing ∷ []) panicking event_of_camera [] refl panics

abbrev face_client : Client Log
face_client = record {
  decode_base64 = λ s. some (0 ∷ (1 ∷ (2 ∷ [])));
  download = λ url w. ([], w);
  create_face_event = λ image w. (ok (some "f1"), "create" ∷ w);
  get_face_event = λ id w. (
    some (record {
      id = id;
      matched = true;
      matched_card = some (pos 7);
      confidence = "0.91";
      looks_like_conf = none;
    }),
    w,
  );
  get_card = λ card w. (some ("Ana", "http://faces/7.jpg"), w);
  get_face_object = λ card w. (none, w);
}

abbrev matched_face : FaceEvent
matched_face = record {
  id = "f1";
  matched = true;
  matched_card = some (pos 7);
  confidence = "0.91";
  looks_like_conf = none;
}

abbrev ana : AnalyticEvent
ana = recognized event_of_camera matched_face (pos 7) (some ("Ana", "http://faces/7.jpg")) none

returned : (process_face_capture face_client event_of_camera []).0.1 ≡ some ana
unfolding process_face_capture is_face_type to_lower trim_space snapshot_of
returned = refl

process_face_capture-FromImage_example :
    (is_face_type event_of_camera.analytic_type ≡ true)
    × (let (image, w') = snapshot_of face_client event_of_camera [] in
        FromImage face_client event_of_camera ana image w')
process_face_capture-FromImage_example =
    process_face_capture-FromImage face_client event_of_camera ana [] returned

-- A file and the log of what is written and sent.
abbrev Files : Type 0
Files = Option Bytes × Log

abbrev api_lib : ApiLib String
api_lib = record {
  decode_config = λ _. some (reread (build_config lib generator none (recorded_camera ∷ [])));
  encode_config = λ _. ok (1 ∷ []);
  payload = λ _. some (ok (2 ∷ []));
  request_error = λ _. none;
  parse_url = λ s. ok s;
  url_path = λ _. "/";
  with_path = λ path s. s <> path;
  resolve_reference = λ base rel. base <> "/" <> rel;
  show_url = λ s. s;
  path_escape = λ s. s;
  dir = λ _. "/etc";
  quote = λ s. s;
  same = λ _ _. true;
}

abbrev unavailable : System Files
unavailable = record {
  read_file = λ _ w. (ok w.0, w);
  mkdir_all = λ _ w. (none, w);
  write_file = λ _ bytes w. (none, (some bytes, "write" ∷ w.1));
  find_process = λ _ w. (none, w);
  signal_hup = λ _ w. (none, w);
  send =
      λ req w. (ok (503, "503 Service Unavailable"), (w.0, (req.method <> " " <> req.url) ∷ w.1));
}

is_file : (l : ApiLib String) (g : Generator) → IsFile l unavailable g (λ w. w.0)
is_file l g = record {
  read = λ w. refl;
  written = λ bytes w done. refl;
  send = λ req w. refl;
  find = λ pid w. refl;
  signal = λ pid w. refl;
}

abbrev no_file : Files
no_file = (none, [])

refused : Files
refused =
    (sync (server api_lib generator unavailable) lib no_config generator (recorded_camera ∷ [])
      no_file).1

sync_refused :
    sync
      (server api_lib generator unavailable)
      lib
      no_config
      generator
      (recorded_camera ∷ [])
      no_file
    ≡ (
      some "patch mediamtx global config: mediamtx api status 503 Service Unavailable",
      (some (1 ∷ []), "PATCH http://mtx:9997/v3/config/global/patch" ∷ "write" ∷ []),
    )
unfolding sync server apply_config_via_api has_suffix
sync_refused = refl

sync_twice_example :
    sync
      (server api_lib generator unavailable)
      lib
      no_config
      generator
      (recorded_camera ∷ [])
      refused
    ≡ (none, refused)
unfolding refused write_config
sync_twice_example =
    sync_twice api_lib unavailable generator (λ w. w.0) (is_file api_lib generator) lib no_config
      (recorded_camera ∷ []) has_path no_file (λ bytes written. refl) (λ cfg. refl) refl refl

abbrev guarded : Generator
guarded = record generator { api_user = "admin"; api_pass = "secret" }

abbrev strict_lib : ApiLib String
strict_lib = record api_lib { same = λ _ _. false }

abbrev old_file : Files
old_file = (some (1 ∷ []), [])

sync_never_idle_example :
    sync
      (server strict_lib guarded unavailable)
      lib
      no_config
      guarded
      (recorded_camera ∷ [])
      old_file
    ≡ write_and_apply
        (server strict_lib guarded unavailable)
        guarded
        (reread old_config)
        (build_config lib guarded (some (reread old_config)) (recorded_camera ∷ []))
        old_file
sync_never_idle_example =
    sync_never_idle strict_lib unavailable guarded (λ w. w.0) (is_file strict_lib guarded) lib
      no_config (recorded_camera ∷ []) has_path (λ a b same. absurd (cc same)) refl old_config
      old_file refl
