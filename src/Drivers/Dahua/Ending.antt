-- ===== src/Drivers/Dahua/Ending.antt =====
-- internal/drivers/dahua.go: how a connection to a Dahua camera ends.
use mathlib.Core.Path.{subst}
use text.Mathlib.Text.{starts_with}
use cam_bus.Base.{
  ℕ, suc, Bool, true, false, String, Option, none, some, Result, ok, err, List, [], ◌∷◌, ◌≡◌, ◌==◌,
  ◌||◌, refl, nat_eq, inl, inr, not, if-rule, Result-cases, Bool-cases,
}
use cam_bus.Core.{CameraInfo, AnalyticEvent}
use cam_bus.Drivers.{offline, not_established, connecting}
use cam_bus.Drivers.Camera.{Lib, Camera, Part, End, eof, broken, Response, Bytes}
use cam_bus.Drivers.Ending.{IsContext, Ended, stays_for, rounds_done, done_rounds}
use cam_bus.Drivers.Dahua.Keeping.{SelectedEvent, run_once_keeps}
use cam_bus.Drivers.Dahua.{
  selected_event_codes, allowed_codes, attach_request, update, do_digest, parse_event_and_snapshot,
  with_snapshot, report, read_part, stream_ended, read_parts, open_stream, attached, run_once, run,
}

module _ {W : Type 0} (C : W → Type 0) (lib : Lib) (cam : Camera W) (info : CameraInfo)
    (context : IsContext C cam) where
  -- The loop stops only where the context is done.
  abbrev Stopped : Bool × W → Type 0
  Stopped (true, w) = Unit
  Stopped (false, w) = C w

  emit-Stopped : (e : AnalyticEvent) (w : W) → Stopped (cam.emit e w)
  emit-Stopped e w = elim (Bool-cases (cam.emit e w).0) [
    | inl sent ↦ rw sent tt
    | inr cut ↦ rw cut (context.cut_emit e w cut)
  ]

  report-Stopped :
      (r : Option (AnalyticEvent × Option (Bytes × String))) (w : W)
      → Stopped (report lib cam info r w)
  unfolding report
  report-Stopped none w = tt
  report-Stopped (some (e, image)) w =
      emit-Stopped (with_snapshot lib cam info e image w).0 (with_snapshot lib cam info e image w).1

  read_part-Stopped :
      (allowed : List String) (part : Part) (w : W)
      → Stopped (read_part lib cam info allowed part w)
  unfolding read_part
  read_part-Stopped allowed part w =
      if-rule Stopped (part.content_type == "" || starts_with part.content_type "text/plain")
        (λ _. elim (Result-cases part.content) [
          | inr (_, unread) ↦ rw unread tt
          | inl (bytes, content) ↦ rw content (
              report-Stopped (parse_event_and_snapshot lib cam info allowed (lib.text_of bytes) w).0
                _)
        ])
        (λ _. tt)

  read_parts-Ended :
      (allowed : List String) (parts : List Part) (end : End) (w : W)
      → Ended C cam (read_parts lib cam info allowed parts end w)
  unfolding read_parts stream_ended
  read_parts-Ended allowed [] eof w = (offline, "stream ended", w, refl, tt)
  read_parts-Ended allowed [] (broken e) w = (offline, e, w, refl, tt)
  read_parts-Ended allowed (part ∷ parts) end w =
      let r = read_part lib cam info allowed part w in
      elim (Bool-cases r.0) [
        | inl more ↦ rw (more, read_parts) (read_parts-Ended allowed parts end r.1)
        | inr cut ↦
            rw (cut, read_parts)
              (subst (λ b. Stopped (b, r.1)) cut (read_part-Stopped allowed part w))
      ]

  open_stream-Ended :
      (resp : Response) (r : Result String (String × String)) (w : W)
      → Ended C cam (open_stream lib cam info resp r w)
  unfolding open_stream
  open_stream-Ended resp (err e) w = (not_established, e, w, refl, tt)
  open_stream-Ended resp (ok (mediatype, boundary)) w =
      if-rule (Ended C cam) (not (starts_with mediatype "multipart/"))
        (λ _. (not_established, "unexpected media type", w, refl, tt))
        λ _.
          if-rule (Ended C cam) (boundary == "")
            (λ _. (not_established, "missing boundary", w, refl, tt))
            λ _.
              read_parts-Ended (allowed_codes (selected_event_codes info)) (resp.parts boundary).0
                (resp.parts boundary).1 _

  attached-Ended : (r : Result String Response) (w : W) → Ended C cam (attached lib cam info r w)
  unfolding attached
  attached-Ended (err e) w = (not_established, e, w, refl, tt)
  attached-Ended (ok resp) w =
      if-rule (Ended C cam) (nat_eq resp.status 200)
        (λ _. open_stream-Ended resp (lib.parse_media_type (resp.header "Content-Type")) w)
        (λ _. (not_established, lib.text_of resp.body.0, w, refl, tt))

  -- A connection to a Dahua camera ends without an error only where the context is done. Else the last
  -- thing that the driver does is to report that the camera is not connected.
  pub dahua_run_once-Ended : (w : W) → Ended C cam (run_once lib cam info w)
  unfolding run_once
  dahua_run_once-Ended w =
      let w' = cam.notify (update connecting "abrindo stream") w in
      attached-Ended (do_digest lib cam info (attach_request info) w').0 _

  run_once_stays : (w : W) → C w → C (run_once lib cam info w).1
  run_once_stays = run_once_keeps C lib cam info (stays_for C cam (SelectedEvent info) context)

  -- Where a context that is done stays done, is the only reason why the sending of an event or a wait is
  -- cut short, and is what `ctx.Err()` tells: `Run` for a Dahua camera returns only if the context is
  -- done, and once that is done, it returns in the next turn of its loop at the latest.
  pub dahua_run_ends :
      (n : ℕ) (w : W)
      → ((run lib cam info n w).0 ≡ true → C (run lib cam info n w).1)
        × (C (run lib cam info n w).1 → (run lib cam info (suc n) w).0 ≡ true)
  unfolding run
  dahua_run_ends n w = (
    rounds_done C cam context (run_once lib cam info) run_once_stays dahua_run_once-Ended n w,
    done_rounds C cam context (run_once lib cam info) run_once_stays dahua_run_once-Ended n w,
  )
