-- ===== src/Supervisor/Discovery.antt =====
-- internal/supervisor/supervisor.go: the entities that are announced to Home Assistant.
use cam_bus.Base.{true, String, ◌<>◌, Option, none, some, List, [], ◌∷◌, ◌||◌, not, if◌then◌else◌}
use cam_bus.Core.{CameraInfo}
use cam_bus.Engines.{has}
use cam_bus.Supervisor.{Supervisor, event_topic, has_analytic, slug_for_camera}
use cam_bus.Supervisor.Services.{
  Json, str, num, texts, object, Fields, no_fields, field, config, Message, Services,
}

-- A discovery message: the component, the object's id and its configuration.
abbrev pub Discovery : Type 0
Discovery = String × String × Fields

unfoldable pub origin : Json
origin = object (field "name" (str "rtls-cam-bus") no_fields)

unfoldable pub device_of : CameraInfo → Json
unfolding slug_for_camera
device_of info = object (
    field "identifiers" (texts (("rtls_camera_" <> slug_for_camera info) ∷ [])) (
      field "name"
        (str (
          "Câmera " <> info.device_id <> " (" <> info.building <> " " <> info.floor <> ", "
          <> info.tenant <> ")"))
        (field "manufacturer" (str info.manufacturer) (field "model" (str info.model) no_fields))))

-- an entity's name, id, the key of its topic, and the topic
entity : String → String → String → String → Fields → Fields
entity name id topic_key topic rest =
    field "name" (str name) (field "unique_id" (str id) (field topic_key (str topic) rest))

-- the seven configurations of `publishHADiscovery`, in order
unfoldable pub discoveries : Supervisor → CameraInfo → List Discovery
unfolding entity
discoveries s info =
    let slug = slug_for_camera info in
    let topic = event_topic s info "faceRecognized" in
    let tail : Fields = field "device" (device_of info) (field "origin" origin no_fields) in
    (
      "binary_sensor",
      slug <> "_face_recognized",
      entity ("FaceRecognized " <> info.device_id) (slug <> "_face_recognized") "state_topic" topic
          (field "value_template"
            (str
              "{% if value_json.AnalyticType == 'faceRecognized' and value_json.Meta.eventState == 'active' %}ON{% else %}OFF{% endif %}")
            (field "payload_on" (str "ON") (
              field "payload_off" (str "OFF")
                (field "expire_after" (num 10) (field "json_attributes_topic" (str topic) tail))))),
    )
    ∷ (
      "sensor",
      slug <> "_face_person",
      entity ("Face Recognition CPF " <> info.device_id) (slug <> "_face_person") "state_topic"
          topic
          (field "value_template" (str "{{ value_json.Meta.ff_person_name }}")
            (field "icon" (str "mdi:account") tail)),
    )
    ∷ (
      "sensor",
      slug <> "_face_message",
      entity ("Face Recognition Msg " <> info.device_id) (slug <> "_face_message") "state_topic"
          topic
          (field "value_template"
            (str "Reconhecido com a pessoa: {{ value_json.Meta.ff_person_name }}")
            (field "icon" (str "mdi:account-badge") tail)),
    )
    ∷ (
      "sensor",
      slug <> "_face_confidence",
      entity ("Face Recognition Confiança " <> info.device_id) (slug <> "_face_confidence")
          "state_topic" topic
          (field "value_template" (str "{{ (value_json.Meta.ff_confidence * 100) | round(1) }}") (
            field "unit_of_measurement" (str "%")
              (field "icon" (str "mdi:shield-half-full") tail))),
    )
    ∷ (
      "sensor",
      slug <> "_face_time",
      entity ("Face Recognition Horário " <> info.device_id) (slug <> "_face_time") "state_topic"
          topic
          (field "device_class" (str "timestamp")
            (field "value_template" (str "{{ as_datetime(value_json.Timestamp) }}") tail)),
    )
    ∷ (
      "image",
      slug <> "_face_snapshot",
      entity ("Face Snapshot " <> info.device_id) (slug <> "_face_snapshot") "url_topic" topic (
          field "url_template"
            (str
              "{{ value_json.SnapshotURL | replace('http://localhost:9000', 'http://minio:9000') }}")
            tail),
    )
    ∷ (
      "image",
      slug <> "_face_db_photo",
      entity ("Face DB Photo " <> info.device_id) (slug <> "_face_db_photo") "url_topic" topic
          (field "url_template" (str "{{ value_json.Meta.ff_person_photo_url }}") tail),
    )
    ∷ []

-- the message of `publishDiscoveryConfig`
unfoldable pub discovery_message : Discovery → Message
discovery_message (component, id, cfg) = record {
  topic = "homeassistant/" <> component <> "/" <> id <> "/config";
  retained = true;
  payload = config (object cfg);
}

module _ {W : Type 0} (sv : Services W) where
  -- publishDiscoveryConfig: its error
  unfoldable pub publish_discovery_config : Discovery → W → Option String × W
  unfolding discovery_message
  publish_discovery_config d w =
      let message = discovery_message d in
      let (r, w') = sv.publish message w in
      elim r [
        | none ↦ (none, w')
        | some e ↦ (some ("publish discovery " <> message.topic <> ": " <> e), w')
      ]

  -- the configurations one after another, up to the first error
  publish_configs : List Discovery → W → Option String × W
  unfolding publish_discovery_config
  publish_configs [] w = (none, w)
  publish_configs (d ∷ ds) w =
      let (r, w') = publish_discovery_config d w in
      let rest = publish_configs ds w' in elim r [ none ↦ rest | some e ↦ (some e, w') ]

  -- publishHADiscovery
  unfoldable pub publish_ha_discovery : Supervisor → CameraInfo → W → Option String × W
  unfolding publish_configs has_analytic
  publish_ha_discovery s info w =
      if not (has sv.engines "findface")
      then (none, w)
      else if not (has_analytic info "faceCapture" || has_analytic info "FaceDetection")
      then (none, w)
      else publish_configs (discoveries s info) w
