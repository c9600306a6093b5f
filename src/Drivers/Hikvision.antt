-- ===== src/Drivers/Hikvision.antt =====
-- internal/drivers/hikvision.go: the driver of Hikvision cameras.
pub mod Xml
pub mod Events
pub mod Keeping
pub mod Ending
use text.Mathlib.Text.{starts_with}
use cam_bus.Base.{
  ℕ, Bool, String, ◌<>◌, Option, none, some, Result, ok, err, List, [], ◌∷◌, ◌==◌, ◌||◌, not,
  nat_eq, if◌then◌else◌,
}
use cam_bus.Base.Int.{ℤ, pos, int_eq}
use cam_bus.Base.Str.{trim_space, to_lower}
use cam_bus.Base.Str.Decimal.{show_int}
use cam_bus.Core.{CameraInfo, AnalyticEvent}
use cam_bus.Core.Analytics.{in_set, hikvision_event_type_set}
use cam_bus.Drivers.{ConnectionState, connecting, online, offline, not_established, StatusUpdate}
use cam_bus.Drivers.Camera.{Lib, Camera, Part, End, eof, broken, Response, Bytes, HttpRequest}
use cam_bus.Drivers.Digest.{do_digest}
use cam_bus.Drivers.Snapshots.{build_snapshot_key}
use cam_bus.Drivers.Rounds.{rounds}
use cam_bus.Drivers.Hikvision.Events.{parse_json_event, parse_xml_event}

-- the types of the list that the camera supports
unfoldable pub supported : List String → List String
supported [] = []
supported (a ∷ as') =
    let rest = supported as' in
    let name = trim_space a in
    if name == ""
    then rest
    else if in_set hikvision_event_type_set (to_lower name)
    then name ∷ rest
    else rest

-- selectedEventTypes
unfoldable pub selected_event_types : CameraInfo → List String
unfolding supported
selected_event_types info = elim (supported info.analytics) [
  | [] ↦ "faceCapture" ∷ []
  | t ∷ ts ↦ t ∷ ts
]

unfoldable pub event_elements : List String → String
event_elements [] = ""
event_elements (t ∷ ts) =
    "<Event><type>" <> t <> "</type><channels>1</channels></Event>" <> event_elements ts

-- buildSubscribeEventXML
unfoldable pub build_subscribe_event_xml : CameraInfo → String
unfolding event_elements
build_subscribe_event_xml info =
    "<SubscribeEvent xmlns=\"http://www.isapi.org/ver20/XMLSchema\">"
    <> "<format>json</format>"
    <> "<heartbeat>30</heartbeat>"
    <> "<eventMode>list</eventMode>"
    <> "<EventList>"
    <> event_elements (selected_event_types info)
    <> "</EventList>"
    <> "</SubscribeEvent>"

-- the address of the camera's web server
unfoldable pub base_url : CameraInfo → String
base_url info =
    (if info.use_tls then "https" else "http")
    <> "://"
    <> (if int_eq info.port (pos 0) then info.ip else info.ip <> ":" <> show_int info.port)

-- the request that opens the stream
unfoldable pub subscribe_request : CameraInfo → HttpRequest
unfolding base_url build_subscribe_event_xml
subscribe_request info = record {
  method = "POST";
  url = base_url info <> "/ISAPI/Event/notification/subscribeEvent";
  content_type = "application/xml";
  authorization = "";
  body = build_subscribe_event_xml info;
}

abbrev pub update : ConnectionState → String → StatusUpdate
update state reason = record { state = state; reason = reason }

-- What a part leaves: the event that waits for its image, or the end of the stream's reading.
pub data Next : Type 0 where
  go_on : Option AnalyticEvent → Next
  stop : Next

module _ {W : Type 0} (lib : Lib) (cam : Camera W) (info : CameraInfo) where
  -- the error of `runOnce`, reported as a state of the connection
  abbrev pub failed : ConnectionState → String → String → W → Option String × W
  failed state reason message w = (some message, cam.notify (update state reason) w)

  -- the event with the address under which its snapshot is stored, if there is a store
  unfoldable pub store_snapshot : AnalyticEvent → Bytes → String → W → AnalyticEvent × W
  unfolding build_snapshot_key
  store_snapshot evt img ct w = elim cam.save [
    | none ↦ (evt, w)
    | some save ↦
        (let (key, w₁) = build_snapshot_key cam info evt w in
          let (r, w₂) = save key img ct w₁ in
          elim r [ err _ ↦ (evt, w₂) | ok url ↦ (record evt { snapshot_url = url }, w₂) ])
  ]

  -- an image, for the event that waits for it
  unfoldable pub with_image : Option AnalyticEvent → Bytes → String → W → Next × W
  unfolding store_snapshot
  with_image none img ct w = (go_on none, w)
  with_image (some evt) img ct w =
      let (stored, w₁) = store_snapshot evt img ct w in
      let (sent, w₂) = cam.emit (record stored { snapshot_b64 = lib.base64 img }) w₁ in
      (if sent then go_on none else stop, w₂)

  -- an event that was parsed, or the error of that
  abbrev pub parsed : Option AnalyticEvent → Result String AnalyticEvent × W → Next × W
  parsed pending (err _, w) = (go_on pending, w)
  parsed pending (ok evt, w) = (go_on (some evt), w)

  -- the content of a part, by its type
  unfoldable pub part_content : Option AnalyticEvent → String → Bytes → W → Next × W
  unfolding with_image parse_json_event parse_xml_event
  part_content pending ct bytes w =
      if starts_with ct "application/json"
      then parsed pending (parse_json_event lib cam info bytes w)
      else if starts_with ct "application/xml" || starts_with ct "text/xml"
      then parsed pending (parse_xml_event lib cam info bytes w)
      else if starts_with ct "image/"
      then with_image pending bytes ct w
      else (go_on pending, w)

  -- one turn of the loop over the parts
  unfoldable pub read_part : Option AnalyticEvent → Part → W → Next × W
  unfolding part_content
  read_part pending part w = elim part.content [
    | err _ ↦ (go_on pending, w)
    | ok bytes ↦ part_content pending part.content_type bytes w
  ]

  -- what `NextPart` returns at the end of the stream
  unfoldable pub stream_ended : End → W → Option String × W
  stream_ended eof w = failed offline "stream ended" "stream ended" w
  stream_ended (broken e) w = failed offline e ("error reading part: " <> e) w

  -- the turns that follow one
  abbrev pub then_parts :
      (Option AnalyticEvent → W → Option String × W) → Next × W → Option String × W
  then_parts rest (stop, w) = (none, w)
  then_parts rest (go_on pending, w) = rest pending w

  -- the loop over the parts
  unfoldable pub read_parts : Option AnalyticEvent → List Part → End → W → Option String × W
  unfolding read_part stream_ended
  read_parts pending [] end w = stream_ended end w
  read_parts pending (part ∷ parts) end w =
      then_parts (λ pending' w'. read_parts pending' parts end w') (read_part pending part w)

  -- the response, whose type must be a multipart type with a boundary
  unfoldable pub open_stream : Response → Result String (String × String) → W → Option String × W
  unfolding read_parts
  open_stream resp (err e) w =
      failed not_established e
        ("invalid Content-Type " <> lib.quote (resp.header "Content-Type") <> ": " <> e) w
  open_stream resp (ok (mediatype, boundary)) w =
      let (parts, end) = resp.parts boundary in
      if not (starts_with mediatype "multipart/")
      then failed not_established "unexpected media type" ("unexpected media type: " <> mediatype) w
      else if boundary == ""
      then failed not_established "missing boundary"
          ("no boundary in Content-Type: " <> resp.header "Content-Type") w
      else read_parts none parts end (cam.notify (update online "stream ativo") w)

  -- the answer to the subscription
  unfoldable pub subscribed : Result String Response → W → Option String × W
  unfolding open_stream
  subscribed (err e) w = failed not_established e ("subscribeEvent error: " <> e) w
  subscribed (ok resp) w =
      let reason = lib.text_of resp.body.0 in
      let opened = open_stream resp (lib.parse_media_type (resp.header "Content-Type")) w in
      if nat_eq resp.status 200
      then opened
      else failed not_established reason
          ("subscribeEvent status " <> show_int (pos resp.status) <> ": " <> reason) w

  -- runOnce
  unfoldable pub run_once : W → Option String × W
  unfolding subscribed do_digest subscribe_request
  run_once w =
      let w₁ = cam.notify (update connecting "abrindo subscribeEvent") w in
      let (r, w₂) = do_digest lib cam info (subscribe_request info) w₁ in subscribed r w₂

  -- Run, for a number of turns: whether it has returned, with no error
  unfoldable pub run : ℕ → W → Bool × W
  unfolding run_once
  run = rounds cam run_once
