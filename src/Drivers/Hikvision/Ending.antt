-- ===== src/Drivers/Hikvision/Ending.antt =====
-- internal/drivers/hikvision.go: how a connection to a Hikvision camera ends.
use text.Mathlib.Text.{starts_with}
use cam_bus.Base.{
  ℕ, suc, true, String, ◌<>◌, Option, none, some, Result, ok, err, List, [], ◌∷◌, ◌≡◌, ◌==◌, ◌||◌,
  refl, nat_eq, inl, inr, not, if-rule, Result-cases, Bool-cases,
}
use cam_bus.Core.{CameraInfo, AnalyticEvent}
use cam_bus.Drivers.{ConnectionState, offline, not_established, connecting}
use cam_bus.Drivers.Camera.{Lib, Camera, Part, End, eof, broken, Response, Bytes}
use cam_bus.Drivers.Digest.{do_digest}
use cam_bus.Drivers.Ending.{IsContext, Ended, IsDown, stays_for, rounds_done, done_rounds}
use cam_bus.Drivers.Hikvision.Events.{parse_json_event, parse_xml_event}
use cam_bus.Drivers.Hikvision.Keeping.{CameraEvent, run_once_keeps}
use cam_bus.Drivers.Hikvision.{
  Next, go_on, stop, update, store_snapshot, with_image, parsed, part_content, read_part,
  stream_ended, then_parts, read_parts, open_stream, subscribed, run_once, run, subscribe_request,
  failed,
}

module _ {W : Type 0} (C : W → Type 0) (lib : Lib) (cam : Camera W) (info : CameraInfo)
    (context : IsContext C cam) where
  failed-Ended :
      (state : ConnectionState) (reason message : String) (w : W)
      → IsDown state
      → Ended C cam (failed lib cam info state reason message w)
  failed-Ended state reason message w down = (state, reason, w, refl, down)

  -- The loop stops only where the context is done.
  abbrev Stopped : Next × W → Type 0
  Stopped (stop, w) = C w
  Stopped (go_on _, w) = Unit

  with_image-Stopped :
      (pending : Option AnalyticEvent) (img : Bytes) (ct : String) (w : W)
      → Stopped (with_image lib cam info pending img ct w)
  unfolding with_image
  with_image-Stopped none img ct w = tt
  with_image-Stopped (some e) img ct w =
      let (stored, w₁) = store_snapshot lib cam info e img ct w in
      let evt = record stored { snapshot_b64 = lib.base64 img } in
      elim (Bool-cases (cam.emit evt w₁).0) [
        | inl sent ↦ rw (sent, with_image) tt
        | inr cut ↦ rw (cut, with_image) (context.cut_emit evt w₁ cut)
      ]

  parsed-Stopped :
      (pending : Option AnalyticEvent) (r : Result String AnalyticEvent × W)
      → Stopped (parsed lib cam info pending r)
  parsed-Stopped pending (err _, w) = tt
  parsed-Stopped pending (ok e, w) = tt

  part_content-Stopped :
      (pending : Option AnalyticEvent) (ct : String) (bytes : Bytes) (w : W)
      → Stopped (part_content lib cam info pending ct bytes w)
  unfolding part_content
  part_content-Stopped pending ct bytes w =
      if-rule Stopped (starts_with ct "application/json")
        (λ _. parsed-Stopped pending (parse_json_event lib cam info bytes w))
        λ _.
          if-rule Stopped (starts_with ct "application/xml" || starts_with ct "text/xml")
            (λ _. parsed-Stopped pending (parse_xml_event lib cam info bytes w))
            λ _.
              if-rule Stopped (starts_with ct "image/") (λ _. with_image-Stopped pending bytes ct w)
                (λ _. tt)

  read_part-Stopped :
      (pending : Option AnalyticEvent) (part : Part) (w : W)
      → Stopped (read_part lib cam info pending part w)
  unfolding read_part
  read_part-Stopped pending part w = elim (Result-cases part.content) [
    | inr (_, unread) ↦ rw (unread, read_part) tt
    | inl (bytes, content) ↦
        rw (content, read_part) (part_content-Stopped pending part.content_type bytes w)
  ]

  then_parts-Ended :
      (rest : Option AnalyticEvent → W → Option String × W) (r : Next × W)
      → Stopped r
      → ((pending : Option AnalyticEvent) (w : W) → Ended C cam (rest pending w))
      → Ended C cam (then_parts lib cam info rest r)
  then_parts-Ended rest (stop, w) c h = c
  then_parts-Ended rest (go_on pending, w) c h = h pending w

  read_parts-Ended :
      (pending : Option AnalyticEvent) (parts : List Part) (end : End) (w : W)
      → Ended C cam (read_parts lib cam info pending parts end w)
  unfolding read_parts stream_ended
  read_parts-Ended pending [] eof w = failed-Ended offline _ "stream ended" w tt
  read_parts-Ended pending [] (broken e) w =
      failed-Ended offline e ("error reading part: " <> e) w tt
  read_parts-Ended pending (part ∷ parts) end w =
      then_parts-Ended (λ pending' w'. read_parts lib cam info pending' parts end w')
        (read_part lib cam info pending part w) (read_part-Stopped pending part w)
        (λ pending' w'. read_parts-Ended pending' parts end w')

  open_stream-Ended :
      (resp : Response) (r : Result String (String × String)) (w : W)
      → Ended C cam (open_stream lib cam info resp r w)
  unfolding open_stream
  open_stream-Ended resp (err e) w = (not_established, e, w, refl, tt)
  open_stream-Ended resp (ok (mediatype, boundary)) w =
      if-rule (Ended C cam) (not (starts_with mediatype "multipart/"))
        (λ _. (not_established, "unexpected media type", w, refl, tt))
        λ _.
          if-rule (Ended C cam) (boundary == "")
            (λ _. (not_established, "missing boundary", w, refl, tt))
            λ _. read_parts-Ended none (resp.parts boundary).0 (resp.parts boundary).1 _

  subscribed-Ended :
      (r : Result String Response) (w : W) → Ended C cam (subscribed lib cam info r w)
  unfolding subscribed
  subscribed-Ended (err e) w = (not_established, e, w, refl, tt)
  subscribed-Ended (ok resp) w =
      if-rule (Ended C cam) (nat_eq resp.status 200)
        (λ _. open_stream-Ended resp (lib.parse_media_type (resp.header "Content-Type")) w)
        (λ _. (not_established, lib.text_of resp.body.0, w, refl, tt))

  -- Where a context that is done stays done, and is the only reason why the sending of an event is cut
  -- short: a connection to a Hikvision camera ends without an error only if the context is done. Else
  -- the last thing that the driver does is to report that the camera is not connected.
  pub hikvision_run_once-Ended : (w : W) → Ended C cam (run_once lib cam info w)
  unfolding run_once
  hikvision_run_once-Ended w =
      let w' = cam.notify (update connecting "abrindo subscribeEvent") w in
      subscribed-Ended (do_digest lib cam info (subscribe_request info) w').0 _

  run_once_stays : (w : W) → C w → C (run_once lib cam info w).1
  run_once_stays = run_once_keeps C lib cam info (stays_for C cam (CameraEvent lib info) context)

  -- `Run` returns only where the context is done, and once the context is done, it returns in the
  -- next turn of its loop at the latest.
  pub hikvision_run_ends :
      (n : ℕ) (w : W)
      → ((run lib cam info n w).0 ≡ true → C (run lib cam info n w).1)
        × (C (run lib cam info n w).1 → (run lib cam info (suc n) w).0 ≡ true)
  unfolding run
  hikvision_run_ends n w = (
    rounds_done C cam context (run_once lib cam info) run_once_stays hikvision_run_once-Ended n w,
    done_rounds C cam context (run_once lib cam info) run_once_stays hikvision_run_once-Ended n w,
  )
