-- ===== src/Drivers/Hikvision/Events.antt =====
-- internal/drivers/hikvision.go: the events that the JSON and XML parts of a stream hold.
use cam_bus.Base.{
  ℕ, ◌+◌, String, ◌<>◌, Option, none, some, Result, ok, err, List, [], ◌∷◌, ◌==◌, nat_eq,
  if◌then◌else◌,
}
use cam_bus.Base.Int.{pos}
use cam_bus.Base.Json.{
  Value, float, Values, no_values, value, Members, no_members, find_member, as_object, as_array,
  string_or_none, value_count,
}
use cam_bus.Base.Str.Decimal.{show_int}
use cam_bus.Base.Time.{unix_nano}
use cam_bus.Base.Dict.{Dict}
use cam_bus.Core.{CameraInfo, AnalyticEvent, MetaValue, text, number, double, null}
use cam_bus.Drivers.Camera.{Lib, Camera, Bytes}
use cam_bus.Drivers.Hikvision.Xml.{strip_xml_namespace}

-- getString
unfoldable pub get_string : Members → List String → String
get_string m [] = ""
get_string m (k ∷ ks) =
    let rest = get_string m ks in
    elim (string_or_none (find_member k m)) [ some s ↦ s | none ↦ rest ]

number_of : Option Value → MetaValue
number_of (some (float x)) = double x
number_of _ = null

-- getNumber; a number that encoding/json decodes is a float64
unfoldable pub get_number : Members → String → MetaValue
unfolding number_of
get_number m key = number_of (find_member key m)

-- an event of the camera
unfoldable pub camera_event : CameraInfo → ℕ → String → String → Dict MetaValue → AnalyticEvent
camera_event info ts id analytic meta = record {
  timestamp = ts;
  event_id = id;
  camera_ip = info.ip;
  camera_name = info.name;
  analytic_type = analytic;
  tenant = info.tenant;
  building = info.building;
  floor = info.floor;
  device_type = info.device_type;
  device_id = info.device_id;
  meta = meta;
  snapshot_url = "";
  snapshot_b64 = "";
  raw_snapshot = none;
}

abbrev analytic_of : String → String
analytic_of event_type = if event_type == "" then "unknown" else event_type

abbrev or_zero : Option ℕ → ℕ
or_zero none = 0
or_zero (some t) = t

abbrev values_of : Option Value → Values
values_of none = no_values
values_of (some v) = elim (as_array v) [ none ↦ no_values | some vs ↦ vs ]

abbrev members_of : Value → Members
members_of v = elim (as_object v) [ none ↦ no_members | some ms ↦ ms ]

module _ (lib : Lib) where
  better : Option Value → String → String
  better (some (float x)) best = if lib.float_gt x best then x else best
  better _ best = best

  -- the loop over the faces of a capture
  unfoldable pub best_of_faces : Values → String → String
  unfolding better
  best_of_faces no_values best = best
  best_of_faces (value f fs) best =
      best_of_faces fs (better (find_member "faceScore" (members_of f)) best)

  -- the loop over the captures: the number of faces, and the best score
  unfoldable pub count_faces : Values → ℕ × String → ℕ × String
  unfolding best_of_faces
  count_faces no_values acc = acc
  count_faces (value item items) (count, best) =
      let faces = values_of (find_member "faces" (members_of item)) in
      count_faces items (count + value_count faces, best_of_faces faces best)

  -- the details of an event, and for `faceCapture` those of its faces
  unfoldable pub json_meta : Members → Dict MetaValue
  unfolding count_faces get_string get_number
  json_meta raw =
      let event_type = get_string raw ("eventType" ∷ []) in
      let (count, best) = count_faces (values_of (find_member "faceCapture" raw)) (0, "0") in
      let faces : Dict MetaValue =
        ("facesCount", number (pos count)) ∷ ("bestScore", double best) ∷ [] in
      ("eventType", text event_type)
      ∷ ("eventDescription", text (get_string raw ("eventDescription" ∷ [])))
      ∷ ("eventState", text (get_string raw ("eventState" ∷ [])))
      ∷ ("channelID", get_number raw "channelID")
      ∷ ("channelName", text (get_string raw ("channelName" ∷ [])))
      ∷ (if event_type == "faceCapture" then faces else [])

module _ {W : Type 0} (lib : Lib) (cam : Camera W) where
  -- the time that an event names, or the present
  unfoldable pub time_or_now : String → W → ℕ × W
  time_or_now given_time w =
      let given : ℕ = if given_time == "" then 0 else or_zero (lib.parse_time given_time) in
      let present = cam.now w in if nat_eq given 0 then present else (given, w)

  given_id : Members → String
  given_id raw =
      let uid = get_string raw ("uid" ∷ []) in
      if uid == "" then get_string raw ("eventID" ∷ []) else uid

  -- buildJSONEventID
  unfoldable pub build_json_event_id : Members → W → String × W
  unfolding given_id
  build_json_event_id raw w =
      let (time, w') = cam.now w in
      if given_id raw == "" then ("json-" <> show_int (unix_nano time), w') else (given_id raw, w)

  -- parseJSONEvent
  unfoldable pub parse_json_event : CameraInfo → Bytes → W → Result String AnalyticEvent × W
  unfolding time_or_now build_json_event_id json_meta camera_event
  parse_json_event info bytes w = elim (lib.parse_object bytes) [
    | err e ↦ (err e, w)
    | ok raw ↦
        (let (ts, w₁) = time_or_now (get_string raw ("dateTime" ∷ [])) w in
          let (id, w₂) = build_json_event_id raw w₁ in
          (
            ok (
                camera_event info ts id (analytic_of (get_string raw ("eventType" ∷ [])))
                  (json_meta lib raw)),
            w₂,
          ))
  ]

  -- parseXMLEvent
  unfoldable pub parse_xml_event : CameraInfo → Bytes → W → Result String AnalyticEvent × W
  unfolding time_or_now camera_event
  parse_xml_event info bytes w = elim (lib.parse_alert (strip_xml_namespace (lib.text_of bytes))) [
    | err e ↦ (err e, w)
    | ok alert ↦
        (let (ts, w') = time_or_now alert.date_time w in
          let meta : Dict MetaValue =
            ("eventType", text alert.event_type)
            ∷ ("eventDescription", text alert.event_description)
            ∷ ("eventState", text alert.event_state)
            ∷ ("channelID", number alert.channel_id)
            ∷ ("channelName", text alert.channel_name)
            ∷ [] in
          (
            ok (
                camera_event info ts ("xml-" <> show_int (unix_nano ts))
                  (analytic_of alert.event_type) meta),
            w',
          ))
  ]
