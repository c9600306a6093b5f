-- ===== src/Drivers/Dahua/Keeping.antt =====
-- internal/drivers/dahua.go: what the driver keeps of the world, and which events it sends.
use text.Mathlib.Text.{starts_with}
use cam_bus.Base.{
  ℕ, true, String, Option, none, some, Result, ok, err, List, [], ◌∷◌, ◌≡◌, ◌==◌, ◌||◌, refl,
  nat_eq, inl, inr, Result-cases, Option-cases, if-rule, not, arith,
}
use cam_bus.Base.Str.{to_lower, trim_space}
use cam_bus.Base.State.{if_keeps}
use cam_bus.Core.{CameraInfo, AnalyticEvent}
use cam_bus.Core.Analytics.{in_set}
use cam_bus.Drivers.{connecting}
use cam_bus.Drivers.Camera.{Lib, Camera, Part, End, eof, broken, HttpRequest, Response, Bytes}
use cam_bus.Drivers.Keeping.{Keeps, send_checked_keeps, answered_keeps, rounds_keeps}
use cam_bus.Drivers.Digest.{send_checked}
use cam_bus.Drivers.Hikvision.Keeping.{NamesCamera}
use cam_bus.Drivers.Dahua.{
  selected_event_codes, allowed_codes, is_wanted, code_of, event_of, attach_request, update,
  answered, do_digest, fetch_snapshot, parse_event_and_snapshot, build_snapshot_key, with_snapshot,
  report, read_part, stream_ended, read_parts, open_stream, attached, run_once, run,
}

-- The event names the camera, and its type is one of the codes that are selected for the camera.
abbrev pub SelectedEvent : CameraInfo → AnalyticEvent → Type 0
SelectedEvent info e =
    NamesCamera info e
    × (in_set (allowed_codes (selected_event_codes info)) (to_lower (trim_space e.analytic_type))
        ≡ true)

is_wanted-in_set :
    (allowed : List String) (body : String)
    → is_wanted allowed body ≡ true
    → in_set allowed (to_lower (trim_space (code_of body))) ≡ true
unfolding is_wanted
is_wanted-in_set allowed body h = ground arith

module _ {κ} {W : Type 0} (P : W → Type κ) (lib : Lib) (cam : Camera W) (info : CameraInfo)
    (k : Keeps P (SelectedEvent info) cam) where
  abbrev allowed : List String
  allowed = allowed_codes (selected_event_codes info)

  answered_keeps' :
      (req : HttpRequest) (r : Result String Response) (w : W)
      → P w
      → P (answered lib cam info req r w).1
  answered_keeps' req (err e) w p = p
  answered_keeps' req (ok resp) w p =
      answered_keeps P (SelectedEvent info) cam k lib info req resp w p

  do_digest_keeps : (req : HttpRequest) (w : W) → P w → P (do_digest lib cam info req w).1
  unfolding do_digest
  do_digest_keeps req w p =
      answered_keeps' req (send_checked lib cam req w).0 _
        (send_checked_keeps P (SelectedEvent info) cam k lib req w p)

  build_snapshot_key_keeps :
      (e : AnalyticEvent) (w : W) → P w → P (build_snapshot_key lib cam info e w).1
  unfolding build_snapshot_key
  build_snapshot_key_keeps e w p = if_keeps P _ _ _ (λ _. k.now w p) (λ _. p)

  with_snapshot-Good :
      (e : AnalyticEvent) (image : Option (Bytes × String)) (w : W)
      → SelectedEvent info e
      → P w
      → SelectedEvent info (with_snapshot lib cam info e image w).0
        × P (with_snapshot lib cam info e image w).1
  unfolding with_snapshot
  with_snapshot-Good e none w good p = (good, p)
  with_snapshot-Good e (some (img, ct)) w good p = elim (Option-cases cam.save) [
    | inl no_store ↦ rw (no_store, with_snapshot) (good, p)
    | inr (save, store) ↦
        let (key, w₁) = build_snapshot_key lib cam info e w in
        let p₂ = k.save save store key img ct w₁ (build_snapshot_key_keeps e w p) in
        elim (Result-cases (save key img ct w₁).0) [
          | inl (url, saved) ↦ rw (store, with_snapshot, saved) (good, p₂)
          | inr (_, lost) ↦ rw (store, with_snapshot, lost) (good, p₂)
        ]
  ]

  -- What was parsed is an event that may be sent.
  abbrev ParsedGood : Option (AnalyticEvent × Option (Bytes × String)) × W → Type κ
  ParsedGood (none, w) = P w
  ParsedGood (some (e, _), w) = SelectedEvent info e × P w

  parse-Good :
      (body : String) (w : W)
      → P w
      → ParsedGood (parse_event_and_snapshot lib cam info allowed body w)
  unfolding parse_event_and_snapshot fetch_snapshot event_of
  parse-Good body w p =
      if-rule ParsedGood (is_wanted allowed body)
        (λ wanted. (
          ((refl, refl, refl, refl, refl, refl, refl), is_wanted-in_set allowed body wanted),
          do_digest_keeps _ _ (k.now w p),
        ))
        (λ _. p)

  report_keeps :
      (r : Option (AnalyticEvent × Option (Bytes × String))) (w : W)
      → ParsedGood (r, w)
      → P (report lib cam info r w).1
  unfolding report
  report_keeps none w p = p
  report_keeps (some (e, image)) w (good, p) =
      let (good', p') = with_snapshot-Good e image w good p in k.emit _ _ good' p'

  read_part_keeps : (part : Part) (w : W) → P w → P (read_part lib cam info allowed part w).1
  unfolding read_part
  read_part_keeps part w p =
      if_keeps P (part.content_type == "" || starts_with part.content_type "text/plain") _ _
        (λ _. elim (Result-cases part.content) [
          | inr (_, unread) ↦ rw unread p
          | inl (bytes, content) ↦
              rw content (report_keeps _ _ (parse-Good (lib.text_of bytes) w p))
        ])
        (λ _. p)

  stream_ended_keeps : (end : End) (w : W) → P w → P (stream_ended lib cam info end w).1
  unfolding stream_ended
  stream_ended_keeps eof w p = k.notify _ w p
  stream_ended_keeps (broken e) w p = k.notify _ w p

  read_parts_keeps :
      (parts : List Part) (end : End) (w : W)
      → P w
      → P (read_parts lib cam info allowed parts end w).1
  unfolding read_parts
  read_parts_keeps [] end w p = stream_ended_keeps end w p
  read_parts_keeps (part ∷ parts) end w p =
      let p' = read_part_keeps part w p in
      if_keeps P (read_part lib cam info allowed part w).0 _ _
        (λ _. read_parts_keeps parts end _ p') (λ _. p')

  open_stream_keeps :
      (resp : Response) (r : Result String (String × String)) (w : W)
      → P w
      → P (open_stream lib cam info resp r w).1
  unfolding open_stream
  open_stream_keeps resp (err e) w p = k.notify _ w p
  open_stream_keeps resp (ok (mediatype, boundary)) w p =
      if_keeps P (not (starts_with mediatype "multipart/")) _ _ (λ _. k.notify _ w p)
        λ _.
          if_keeps P (boundary == "") _ _ (λ _. k.notify _ w p)
            λ _. read_parts_keeps (resp.parts boundary).0 (resp.parts boundary).1 _ (k.notify _ w p)

  attached_keeps : (r : Result String Response) (w : W) → P w → P (attached lib cam info r w).1
  unfolding attached
  attached_keeps (err e) w p = k.notify _ w p
  attached_keeps (ok resp) w p =
      if_keeps P (nat_eq resp.status 200) _ _
        (λ _. open_stream_keeps resp (lib.parse_media_type (resp.header "Content-Type")) w p)
        (λ _. k.notify _ w p)

  pub run_once_keeps : (w : W) → P w → P (run_once lib cam info w).1
  unfolding run_once
  run_once_keeps w p =
      let w' = cam.notify (update connecting "abrindo stream") w in
      attached_keeps (do_digest lib cam info (attach_request info) w').0 _
        (do_digest_keeps (attach_request info) w' (k.notify _ w p))

  -- Whatever a Dahua camera answers, in however many connections, every event that its driver sends
  -- names the camera and has one of the codes that are selected for it: what the sending of such events
  -- and the other calls of the driver keep of the world, `Run` keeps.
  pub dahua_run_keeps : (n : ℕ) (w : W) → P w → P (run lib cam info n w).1
  unfolding run
  dahua_run_keeps = rounds_keeps P (SelectedEvent info) cam k (run_once lib cam info) run_once_keeps
