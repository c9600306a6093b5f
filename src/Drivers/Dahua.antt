-- ===== src/Drivers/Dahua.antt =====
-- internal/drivers/dahua.go: the driver of Dahua cameras.
pub mod Keeping
pub mod Ending
use package.text.Mathlib.Text.{starts_with}
use cam_bus.Base.{
  ℕ, Bool, true, String, ◌<>◌, Option, none, some, Result, ok, err, List, [], ◌∷◌, ◌==◌, ◌&&◌, ◌||◌,
  not, nat_eq, if◌then◌else◌,
}
use cam_bus.Base.Int.{pos, int_eq}
use cam_bus.Base.Str.{trim_space, to_lower, equal_fold, join, after_first, span, is_char}
use cam_bus.Base.Str.Decimal.{show_int}
use cam_bus.Base.Time.{unix_nano}
use cam_bus.Core.{CameraInfo, AnalyticEvent, text}
use cam_bus.Core.Analytics.{in_set, dahua_event_types, dahua_event_type_set}
use cam_bus.Drivers.{ConnectionState, connecting, online, offline, not_established, StatusUpdate}
use cam_bus.Drivers.Camera.{Lib, Camera, Part, End, eof, broken, Response, Bytes, HttpRequest}
use cam_bus.Drivers.Digest.{send_checked, send_signed, parse_digest_auth_header}
use cam_bus.Drivers.Snapshots.{snapshot_key}
use cam_bus.Drivers.Rounds.{rounds}

-- The supported codes of a list, up to an entry that asks for all: `none` where one does.
unfoldable pub selected_up_to_all : List String → Option (List String)
selected_up_to_all [] = some []
selected_up_to_all (a ∷ as') =
    let rest = selected_up_to_all as' in
    let name = trim_space a in
    if name == ""
    then rest
    else if equal_fold name "all" || name == "*"
    then none
    else if in_set dahua_event_type_set (to_lower name)
    then (elim rest [ none ↦ none | some codes ↦ some (name ∷ codes) ])
    else rest

-- selectedEventCodes
unfoldable pub selected_event_codes : CameraInfo → List String
unfolding selected_up_to_all
selected_event_codes info = elim (selected_up_to_all info.analytics) [
  | none ↦ dahua_event_types
  | some [] ↦ "FaceDetection" ∷ []
  | some (code ∷ codes) ↦ code ∷ codes
]

-- The codes that are allowed, as the keys of a set.
unfoldable pub allowed_codes : List String → List String
allowed_codes [] = []
allowed_codes (c ∷ cs) =
    let rest = allowed_codes cs in
    let lc = to_lower (trim_space c) in if lc == "" then rest else lc ∷ rest

-- extractKV
unfoldable pub extract_kv : String → String → String
extract_kv body key = elim (after_first body (key <> "=")) [
  | none ↦ ""
  | some rest ↦ trim_space (span (is_char b';') rest).0
]

-- the code of an event's text
unfoldable pub code_of : String → String
unfolding extract_kv
code_of body =
    let code = extract_kv body "Code" in if code == "" then extract_kv body "code" else code

-- whether an event with this text is reported
unfoldable pub is_wanted : List String → String → Bool
unfolding code_of
is_wanted allowed body =
    let action = extract_kv body "action" in
    not (code_of body == "")
    && in_set allowed (to_lower (trim_space (code_of body)))
    && (action == "" || equal_fold action "Start")

-- the event of a text
unfoldable pub event_of : CameraInfo → String → ℕ → AnalyticEvent
event_of info body ts = record {
  timestamp = ts;
  event_id = "dahua-" <> show_int (unix_nano ts);
  camera_ip = info.ip;
  camera_name = info.name;
  analytic_type = code_of body;
  tenant = info.tenant;
  building = info.building;
  floor = info.floor;
  device_type = info.device_type;
  device_id = info.device_id;
  meta =
      ("raw", text body)
      ∷ ("code", text (code_of body))
      ∷ ("action", text (extract_kv body "action"))
      ∷ [];
  snapshot_url = "";
  snapshot_b64 = "";
  raw_snapshot = none;
}

-- the address of the camera's web server
unfoldable pub base_url : CameraInfo → String
base_url info =
    (if info.use_tls then "https" else "http")
    <> "://"
    <> (if int_eq info.port (pos 0) then info.ip else info.ip <> ":" <> show_int info.port)

abbrev get : String → HttpRequest
get url = record { method = "GET"; url = url; content_type = ""; authorization = ""; body = "" }

-- the request that opens the stream
unfoldable pub attach_request : CameraInfo → HttpRequest
unfolding base_url
attach_request info = get (
    base_url info
    <> "/cgi-bin/eventManager.cgi?action=attach&codes=["
    <> join "," (selected_event_codes info)
    <> "]&heartbeat=5")

unfoldable pub snapshot_request : CameraInfo → HttpRequest
unfolding base_url
snapshot_request info = get (base_url info <> "/cgi-bin/snapshot.cgi?channel=1")

-- the media type of a snapshot
abbrev image_type : String → String
image_type ct = if ct == "" then "image/jpeg" else ct

abbrev pub update : ConnectionState → String → StatusUpdate
update state reason = record { state = state; reason = reason }

module _ {W : Type 0} (lib : Lib) (cam : Camera W) (info : CameraInfo) where
  abbrev answered : HttpRequest → Result String Response → W → Result String Response × W
  answered req (err e) w = (err e, w)
  answered req (ok resp) w =
      let signed =
        send_signed lib cam info req (parse_digest_auth_header (resp.header "WWW-Authenticate"))
          w in
      if nat_eq resp.status 401 then signed else (ok resp, w)

  -- doDigest
  unfoldable pub do_digest : HttpRequest → W → Result String Response × W
  do_digest req w = let (r, w') = send_checked lib cam req w in answered req r w'

  image_in : Response → Result String (Bytes × String)
  image_in resp =
      if not (nat_eq resp.status 200)
      then err ("snapshot status " <> show_int (pos resp.status) <> ": " <> lib.text_of resp.body.0)
      else elim resp.body.1 [
        | some e ↦ err e
        | none ↦ elim resp.body.0 [
          | [] ↦ err "snapshot vazio"
          | b ∷ bs ↦ ok (b ∷ bs, image_type (resp.header "Content-Type"))
        ]
      ]

  -- fetchSnapshot
  unfoldable pub fetch_snapshot : W → Result String (Bytes × String) × W
  unfolding do_digest image_in snapshot_request
  fetch_snapshot w =
      let (r, w') = do_digest (snapshot_request info) w in
      (elim r [ err e ↦ err e | ok resp ↦ image_in resp ], w')

  -- parseEventAndSnapshot, which returns no error: the event, and its image where there is one
  unfoldable pub parse_event_and_snapshot :
      List String → String → W → Option (AnalyticEvent × Option (Bytes × String)) × W
  unfolding fetch_snapshot event_of is_wanted
  parse_event_and_snapshot allowed body w =
      let (ts, w₁) = cam.now w in
      let (r, w₂) = fetch_snapshot w₁ in
      let image : Option (Bytes × String) = elim r [ err _ ↦ none | ok i ↦ some i ] in
      if is_wanted allowed body then (some (event_of info body ts, image), w₂) else (none, w)

  -- buildSnapshotKey
  unfoldable pub build_snapshot_key : AnalyticEvent → W → String × W
  build_snapshot_key evt w =
      let (time, w') = cam.now w in
      if nat_eq evt.timestamp 0
      then (snapshot_key info evt time, w')
      else (snapshot_key info evt evt.timestamp, w)

  -- the event with its snapshot, and with the address under which that is stored
  unfoldable pub with_snapshot : AnalyticEvent → Option (Bytes × String) → W → AnalyticEvent × W
  unfolding build_snapshot_key
  with_snapshot evt none w = (evt, w)
  with_snapshot evt (some (img, ct)) w = elim cam.save [
    | none ↦ (record evt { snapshot_b64 = lib.base64 img }, w)
    | some save ↦
        (let (key, w₁) = build_snapshot_key evt w in
          let (r, w₂) = save key img ct w₁ in
          elim r [
            | err _ ↦ (record evt { snapshot_b64 = lib.base64 img }, w₂)
            | ok url ↦ (record evt { snapshot_url = url; snapshot_b64 = lib.base64 img }, w₂)
          ])
  ]

  -- what is left of a turn, once the text was parsed: whether the loop goes on
  unfoldable pub report : Option (AnalyticEvent × Option (Bytes × String)) → W → Bool × W
  unfolding with_snapshot
  report none w = (true, w)
  report (some (evt, image)) w = let (evt', w') = with_snapshot evt image w in cam.emit evt' w'

  -- one turn of the loop over the parts: whether it goes on
  unfoldable pub read_part : List String → Part → W → Bool × W
  unfolding report parse_event_and_snapshot
  read_part allowed part w =
      if part.content_type == "" || starts_with part.content_type "text/plain"
      then (elim part.content [
        | err _ ↦ (true, w)
        | ok bytes ↦
            (let (r, w') = parse_event_and_snapshot allowed (lib.text_of bytes) w in report r w')
      ])
      else (true, w)

  -- the error of `runOnce`, reported as a state of the connection
  abbrev pub failed : ConnectionState → String → String → W → Option String × W
  failed state reason message w = (some message, cam.notify (update state reason) w)

  -- what `NextPart` returns at the end of the stream
  unfoldable pub stream_ended : End → W → Option String × W
  stream_ended eof w = failed offline "stream ended" "stream ended" w
  stream_ended (broken e) w = failed offline e ("error reading part: " <> e) w

  -- the loop over the parts
  unfoldable pub read_parts : List String → List Part → End → W → Option String × W
  unfolding read_part stream_ended
  read_parts allowed [] end w = stream_ended end w
  read_parts allowed (part ∷ parts) end w =
      let (more, w') = read_part allowed part w in
      let rest = read_parts allowed parts end w' in if more then rest else (none, w')

  -- the response, whose type must be a multipart type with a boundary
  unfoldable pub open_stream : Response → Result String (String × String) → W → Option String × W
  unfolding read_parts
  open_stream resp (err e) w =
      failed not_established e
        ("invalid Content-Type " <> lib.quote (resp.header "Content-Type") <> ": " <> e) w
  open_stream resp (ok (mediatype, boundary)) w =
      let (parts, end) = resp.parts boundary in
      let codes = selected_event_codes info in
      if not (starts_with mediatype "multipart/")
      then failed not_established "unexpected media type" ("unexpected media type: " <> mediatype) w
      else if boundary == ""
      then failed not_established "missing boundary"
          ("no boundary in Content-Type: " <> resp.header "Content-Type") w
      else read_parts (allowed_codes codes) parts end
          (cam.notify (update online ("subscribed to [" <> join "," codes <> "]")) w)

  -- the answer to the subscription
  unfoldable pub attached : Result String Response → W → Option String × W
  unfolding open_stream
  attached (err e) w = failed not_established e ("eventManager attach error: " <> e) w
  attached (ok resp) w =
      let reason = lib.text_of resp.body.0 in
      let opened = open_stream resp (lib.parse_media_type (resp.header "Content-Type")) w in
      if nat_eq resp.status 200
      then opened
      else failed not_established reason
          ("eventManager status " <> show_int (pos resp.status) <> ": " <> reason) w

  -- runOnce
  unfoldable pub run_once : W → Option String × W
  unfolding attached do_digest attach_request
  run_once w =
      let w₁ = cam.notify (update connecting "abrindo stream") w in
      let (r, w₂) = do_digest (attach_request info) w₁ in attached r w₂

  -- Run, for a number of turns: whether it has returned, with no error
  unfoldable pub run : ℕ → W → Bool × W
  unfolding run_once
  run = rounds cam run_once
