-- ===== src/Drivers/Hikvision/Keeping.antt =====
-- internal/drivers/hikvision.go: what the driver keeps of the world, and which events it sends.
use text.Mathlib.Text.{starts_with}
use cam_bus.Base.{
  ℕ, String, Option, none, some, Result, ok, err, List, [], ◌∷◌, ◌≡◌, ◌==◌, ◌||◌, refl, nat_eq, inl,
  inr, Result-cases, Option-cases, Bool-cases, if-rule, not,
}
use cam_bus.Base.Json.{Members}
use cam_bus.Base.State.{if_keeps}
use cam_bus.Core.{CameraInfo, AnalyticEvent}
use cam_bus.Drivers.{online, connecting}
use cam_bus.Drivers.Camera.{Lib, Camera, Part, End, eof, broken, Response, Bytes}
use cam_bus.Drivers.Digest.{do_digest}
use cam_bus.Drivers.Snapshots.{build_snapshot_key}
use cam_bus.Drivers.Keeping.{Keeps, do_digest_keeps, rounds_keeps}
use cam_bus.Drivers.Hikvision.Events.{
  camera_event, time_or_now, build_json_event_id, parse_json_event, parse_xml_event,
}
use cam_bus.Drivers.Hikvision.Xml.{strip_xml_namespace}
use cam_bus.Drivers.Hikvision.{
  Next, go_on, stop, store_snapshot, with_image, parsed, part_content, read_part, stream_ended,
  then_parts, update, read_parts, open_stream, subscribed, run_once, run, subscribe_request,
}

-- The event names the camera.
abbrev pub NamesCamera : CameraInfo → AnalyticEvent → Type 0
NamesCamera info e =
    (e.camera_ip ≡ info.ip)
    × (e.camera_name ≡ info.name)
    × (e.tenant ≡ info.tenant)
    × (e.building ≡ info.building)
    × (e.floor ≡ info.floor)
    × (e.device_type ≡ info.device_type)
    × (e.device_id ≡ info.device_id)

-- The event names the camera and has an image.
abbrev pub CameraEvent : Lib → CameraInfo → AnalyticEvent → Type 0
CameraEvent lib info e = NamesCamera info e × (img : Bytes) × (e.snapshot_b64 ≡ lib.base64 img)

module _ {κ} {W : Type 0} (P : W → Type κ) (lib : Lib) (cam : Camera W) (info : CameraInfo)
    (k : Keeps P (CameraEvent lib info) cam) where
  time_or_now_keeps : (t : String) (w : W) → P w → P (time_or_now lib cam t w).1
  unfolding time_or_now
  time_or_now_keeps t w p = if_keeps P _ _ _ (λ _. k.now w p) (λ _. p)

  build_json_event_id_keeps :
      (raw : Members) (w : W) → P w → P (build_json_event_id lib cam raw w).1
  unfolding build_json_event_id
  build_json_event_id_keeps raw w p = if_keeps P _ _ _ (λ _. k.now w p) (λ _. p)

  build_snapshot_key_keeps :
      (e : AnalyticEvent) (w : W) → P w → P (build_snapshot_key cam info e w).1
  unfolding build_snapshot_key
  build_snapshot_key_keeps e w p = if_keeps P _ _ _ (λ _. k.now w p) (λ _. p)

  -- A result that is an event names the camera.
  abbrev ParsedGood : Result String AnalyticEvent × W → Type κ
  ParsedGood (err _, w) = P w
  ParsedGood (ok e, w) = NamesCamera info e × P w

  parse_json_event-Good :
      (bytes : Bytes) (w : W) → P w → ParsedGood (parse_json_event lib cam info bytes w)
  unfolding parse_json_event camera_event
  parse_json_event-Good bytes w p = elim (Result-cases (lib.parse_object bytes)) [
    | inr (e, broken_text) ↦ rw (broken_text, parse_json_event) p
    | inl (raw, decoded) ↦
        rw (decoded, parse_json_event)
          (
            (refl, refl, refl, refl, refl, refl, refl),
            build_json_event_id_keeps raw _ (time_or_now_keeps _ w p),
          )
  ]

  parse_xml_event-Good :
      (bytes : Bytes) (w : W) → P w → ParsedGood (parse_xml_event lib cam info bytes w)
  unfolding parse_xml_event camera_event
  parse_xml_event-Good bytes w p =
      elim (Result-cases (lib.parse_alert (strip_xml_namespace (lib.text_of bytes)))) [
        | inr (e, broken_text) ↦ rw (broken_text, parse_xml_event) p
        | inl (alert, decoded) ↦
            rw (decoded, parse_xml_event)
              ((refl, refl, refl, refl, refl, refl, refl), time_or_now_keeps _ w p)
      ]

  store_snapshot-Good :
      (e : AnalyticEvent) (img : Bytes) (ct : String) (w : W)
      → NamesCamera info e
      → P w
      → NamesCamera info (store_snapshot lib cam info e img ct w).0
        × P (store_snapshot lib cam info e img ct w).1
  unfolding store_snapshot build_snapshot_key
  store_snapshot-Good e img ct w names p = elim (Option-cases cam.save) [
    | inl no_store ↦ rw (no_store, store_snapshot) (names, p)
    | inr (save, store) ↦
        let (key, w₁) = build_snapshot_key cam info e w in
        let p₂ = k.save save store key img ct w₁ (build_snapshot_key_keeps e w p) in
        elim (Result-cases (save key img ct w₁).0) [
          | inl (url, saved) ↦ rw (store, store_snapshot, saved) (names, p₂)
          | inr (_, lost) ↦ rw (store, store_snapshot, lost) (names, p₂)
        ]
  ]

  -- An event that waits for its image names the camera.
  abbrev PendingGood : Option AnalyticEvent → Type 0
  PendingGood none = Unit
  PendingGood (some e) = NamesCamera info e

  abbrev NextGood : Next × W → Type κ
  NextGood (stop, w) = P w
  NextGood (go_on pending, w) = PendingGood pending × P w

  with_image-Good :
      (pending : Option AnalyticEvent) (img : Bytes) (ct : String) (w : W)
      → PendingGood pending
      → P w
      → NextGood (with_image lib cam info pending img ct w)
  unfolding with_image
  with_image-Good none img ct w g p = (tt, p)
  with_image-Good (some e) img ct w g p =
      let (stored, w₁) = store_snapshot lib cam info e img ct w in
      let (names, p₁) = store_snapshot-Good e img ct w g p in
      let p₂ = k.emit (record stored { snapshot_b64 = lib.base64 img }) w₁ (names, img, refl) p₁ in
      elim (Bool-cases (cam.emit (record stored { snapshot_b64 = lib.base64 img }) w₁).0) [
        | inl sent ↦ rw (sent, with_image) (tt, p₂)
        | inr cut ↦ rw (cut, with_image) p₂
      ]

  parsed-Good :
      (pending : Option AnalyticEvent) (r : Result String AnalyticEvent × W)
      → PendingGood pending
      → ParsedGood r
      → NextGood (parsed lib cam info pending r)
  parsed-Good pending (err _, w) g p = (g, p)
  parsed-Good pending (ok e, w) g p = p

  part_content-Good :
      (pending : Option AnalyticEvent) (ct : String) (bytes : Bytes) (w : W)
      → PendingGood pending
      → P w
      → NextGood (part_content lib cam info pending ct bytes w)
  unfolding part_content
  part_content-Good pending ct bytes w g p =
      if-rule NextGood (starts_with ct "application/json")
        (λ _. parsed-Good pending _ g (parse_json_event-Good bytes w p))
        λ _.
          if-rule NextGood (starts_with ct "application/xml" || starts_with ct "text/xml")
            (λ _. parsed-Good pending _ g (parse_xml_event-Good bytes w p))
            λ _.
              if-rule NextGood (starts_with ct "image/")
                (λ _. with_image-Good pending bytes ct w g p) (λ _. (g, p))

  read_part-Good :
      (pending : Option AnalyticEvent) (part : Part) (w : W)
      → PendingGood pending
      → P w
      → NextGood (read_part lib cam info pending part w)
  unfolding read_part
  read_part-Good pending part w g p = elim (Result-cases part.content) [
    | inr (_, unread) ↦ rw (unread, read_part) (g, p)
    | inl (bytes, content) ↦
        rw (content, read_part) (part_content-Good pending part.content_type bytes w g p)
  ]

  stream_ended_keeps : (end : End) (w : W) → P w → P (stream_ended lib cam info end w).1
  unfolding stream_ended
  stream_ended_keeps eof w p = k.notify _ w p
  stream_ended_keeps (broken e) w p = k.notify _ w p

  then_parts_keeps :
      (rest : Option AnalyticEvent → W → Option String × W) (r : Next × W)
      → NextGood r
      → ((pending : Option AnalyticEvent) (w : W)
          → PendingGood pending
          → P w
          → P (rest pending w).1)
      → P (then_parts lib cam info rest r).1
  then_parts_keeps rest (stop, w) p h = p
  then_parts_keeps rest (go_on pending, w) (g, p) h = h pending w g p

  read_parts_keeps :
      (pending : Option AnalyticEvent) (parts : List Part) (end : End) (w : W)
      → PendingGood pending
      → P w
      → P (read_parts lib cam info pending parts end w).1
  unfolding read_parts
  read_parts_keeps pending [] end w g p = stream_ended_keeps end w p
  read_parts_keeps pending (part ∷ parts) end w g p =
      then_parts_keeps (λ pending' w'. read_parts lib cam info pending' parts end w')
        (read_part lib cam info pending part w) (read_part-Good pending part w g p)
        (λ pending' w' g' p'. read_parts_keeps pending' parts end w' g' p')

  open_stream_keeps :
      (resp : Response) (r : Result String (String × String)) (w : W)
      → P w
      → P (open_stream lib cam info resp r w).1
  unfolding open_stream
  open_stream_keeps resp (err e) w p = k.notify _ w p
  open_stream_keeps resp (ok (mediatype, boundary)) w p =
      if_keeps P (not (starts_with mediatype "multipart/")) _ _ (λ _. k.notify _ w p)
        λ _.
          if_keeps P (boundary == "") _ _ (λ _. k.notify _ w p)
            λ _.
              read_parts_keeps none (resp.parts boundary).0 (resp.parts boundary).1 _ tt
                (k.notify (update online "stream ativo") w p)

  subscribed_keeps : (r : Result String Response) (w : W) → P w → P (subscribed lib cam info r w).1
  unfolding subscribed
  subscribed_keeps (err e) w p = k.notify _ w p
  subscribed_keeps (ok resp) w p =
      if_keeps P (nat_eq resp.status 200) _ _
        (λ _. open_stream_keeps resp (lib.parse_media_type (resp.header "Content-Type")) w p)
        (λ _. k.notify _ w p)

  pub run_once_keeps : (w : W) → P w → P (run_once lib cam info w).1
  unfolding run_once
  run_once_keeps w p =
      subscribed_keeps
        (do_digest lib cam info (subscribe_request info)
          (cam.notify (update connecting "abrindo subscribeEvent") w)).0
        _
        (do_digest_keeps P (CameraEvent lib info) cam k lib info (subscribe_request info) _
          (k.notify _ w p))

  -- Whatever a Hikvision camera answers, in however many connections, every event that its driver sends
  -- names the camera and carries the base64 text of an image: what the sending of such events and the
  -- other calls of the driver keep of the world, `Run` keeps.
  pub hikvision_run_keeps : (n : ℕ) (w : W) → P w → P (run lib cam info n w).1
  unfolding run
  hikvision_run_keeps =
      rounds_keeps P (CameraEvent lib info) cam k (run_once lib cam info) run_once_keeps
