-- ===== src/Router.antt =====
-- cmd/face-router/main.go: the program that hands the events of captured faces to the engines.
pub mod Publishing
use cam_bus.Base.{
  Bool, false, String, ◌<>◌, Option, Result, ok, err, List, [], ◌∷◌, ◌==◌, if◌then◌else◌,
}
use cam_bus.Base.State.{St}
use cam_bus.Core.{AnalyticEvent}
use cam_bus.Engines.{Manager, process_all}
use cam_bus.FaceEngine.{is_face_type}
use cam_bus.Supervisor.Services.{Message, event}

-- safe
unfoldable pub safe : String → String → String
safe v def = if v == "" then def else v

-- the topic of the subscription, without `$share/face-router/`
unfoldable pub sub_topic : String → String
sub_topic base_topic = base_topic <> "/+/+/+/+/+/faceCapture/events"

-- the topic of a derived event, for the event that it was derived from
unfoldable pub out_topic : String → AnalyticEvent → String → String
unfolding safe
out_topic base_topic evt analytic_type =
    base_topic
    <> "/"
    <> safe evt.tenant "default"
    <> "/"
    <> safe evt.building "building"
    <> "/"
    <> safe evt.floor "floor"
    <> "/"
    <> safe evt.device_type "device"
    <> "/"
    <> safe evt.device_id "id"
    <> "/"
    <> safe analytic_type "unknown"
    <> "/events"

-- the message of a derived event, which goes without its snapshot
unfoldable pub derived_message : String → AnalyticEvent → AnalyticEvent → Message
unfolding out_topic
derived_message base_topic evt d = record {
  topic = out_topic base_topic evt d.analytic_type;
  retained = false;
  payload = event (record d { snapshot_b64 = "" });
}

-- `publish` is (*mqttclient.Client).Publish, whose error is only logged.
module _ {W : Type 0} (publish : Message → St W (Option String)) where
  -- the loop over the derived events
  unfoldable pub publish_each : String → AnalyticEvent → List AnalyticEvent → W → W
  unfolding derived_message
  publish_each base_topic evt [] w = w
  publish_each base_topic evt (d ∷ ds) w =
      publish_each base_topic evt ds (publish (derived_message base_topic evt d) w).1

  -- handleMessage, of a payload that json.Unmarshal has read
  unfoldable pub handle_message : String → Manager W → Result String AnalyticEvent → W → W
  unfolding publish_each
  handle_message base_topic mgr (err e) w = w
  handle_message base_topic mgr (ok evt) w =
      let (ds, w') = process_all mgr evt w in
      let published = publish_each base_topic evt ds w' in
      if is_face_type evt.analytic_type then published else w
