-- ===== src/Tests/Routing.antt =====
-- Runs of the face router and of the connection to the broker.
use cam_bus.Base.{
  true, String, Option, none, some, ok, List, [], ◌∷◌, ◌≡◌, refl, if◌then◌else◌, ◌==◌,
}
use cam_bus.Base.Int.{pos}
use cam_bus.Base.Str.{to_lower, trim_space, split, trim_left_by, is_space}
use cam_bus.Base.Str.Decimal.{scan_int}
use cam_bus.Base.State.{St}
use cam_bus.Core.{AnalyticEvent}
use cam_bus.Uplink.Env.{Env}
use cam_bus.Engines.{
  load_from_env, process_all, new_manager, parse_csv, find_face_engine, plate_stub,
}
use cam_bus.FaceEngine.{Client, process_face_capture, is_face_type}
use cam_bus.FaceEngine.Keeping.{ClientKeeps}
use cam_bus.Mqtt.{config_from_env}
use cam_bus.Router.{handle_message}
use cam_bus.Router.Publishing.{Recognized, find_face, handle_message_keeps}
use cam_bus.Supervisor.Services.{Message}
use cam_bus.Tests.Fixtures.{event_of_camera}

-- The messages that were published.
abbrev Sent : Type 0
Sent = List Message

abbrev face_client : Client Sent
face_client = record {
  decode_base64 = λ s. some (0 ∷ []);
  download = λ url w. ([], w);
  create_face_event = λ image w. (ok (some "f1"), w);
  get_face_event = λ id w. (
    some (record {
      id = id;
      matched = true;
      matched_card = some (pos 7);
      confidence = "0.91";
      looks_like_conf = none;
    }),
    w,
  );
  get_card = λ card w. (some ("Ana", "http://faces/7.jpg"), w);
  get_face_object = λ card w. (none, w);
}

abbrev send : Message → St Sent (Option String)
send message w = (none, message ∷ w)

abbrev env : Env
env name = if name == "ENGINES" then "findface, lpr" else ""

abbrev AllRecognized : Sent → Type 0
AllRecognized [] = Unit
AllRecognized (m ∷ w) = ((evt : AnalyticEvent) × Recognized "base" evt m) × AllRecognized w

face_client_keeps : ClientKeeps AllRecognized face_client
face_client_keeps = record {
  download = λ url w p. p;
  create_face_event = λ image w p. p;
  get_face_event = λ id w p. p;
  get_card = λ id w p. p;
  get_face_object = λ id w p. p;
}

handle_message_keeps_example : AllRecognized (
    handle_message send "base"
      (load_from_env (some (find_face face_client)) env)
      (ok event_of_camera)
      [])
handle_message_keeps_example =
    handle_message_keeps AllRecognized face_client face_client_keeps send "base" env
      (ok event_of_camera) [] (λ evt message w same good sent. ((evt, good), sent)) tt

topics : Sent → List String
topics [] = []
topics (m ∷ w) = m.topic ∷ topics w

routed :
    topics (
      handle_message send "base"
        (load_from_env (some (find_face face_client)) env)
        (ok event_of_camera)
        [])
    ≡ "base/acme/hq/1/camera/gate/faceRecognized/events" ∷ []
unfolding handle_message topics is_face_type to_lower trim_space process_all load_from_env
    new_manager parse_csv split find_face_engine process_face_capture plate_stub
routed = refl

mqtt_port :
    (config_from_env (λ name. if name == "MQTT_PORT" then " 8883x" else "") "cam-bus").port
    ≡ pos 8883
unfolding config_from_env scan_int trim_left_by is_space
mqtt_port = refl

mqtt_default : (config_from_env (λ name. "") "cam-bus").port ≡ pos 1883
unfolding config_from_env
mqtt_default = refl
