-- ===== src/Supervisor/Soundness.antt =====
-- The handlers of the supervisor, the steps that it takes, and the invariant of its maps.
use cam_bus.Base.{
  ℕ, Bool, true, false, String, none, Result, ok, err, List, [], ◌∷◌, ◌≡◌, ◌≢◌, refl, ◌∙◌, arith,
  if-rule, Option-cases, inl, inr, ◌||◌, ◌==◌, not, eq_refl,
}
use cam_bus.Base.Str.{trim_space, to_lower}
use cam_bus.Base.Dict.{lookup, lookup-insert, lookup-erase}
use cam_bus.Core.{CameraInfo, AnalyticEvent}
use cam_bus.Uplink.Request.{Request, validate}
use cam_bus.Uplink.Manager.{always_on_enabled, resolve_request}
use cam_bus.Uplink.Manager.Operations.{start, stop, status_for}
use cam_bus.Uplink.Manager.Operations.Worlds.{
  start_keeps, stop_keeps, stop_by_camera_keeps, step_keeps,
}
use cam_bus.Engines.{is_enabled}
use cam_bus.Supervisor.{
  Supervisor, key_for, camera_info_equal, upsert_camera_info, active_uplink_state,
  clear_uplink_state, remove_camera_info,
}
use cam_bus.Supervisor.Services.{Services, refresh}
use cam_bus.Supervisor.Discovery.{publish_ha_discovery}
use cam_bus.Supervisor.Workers.{
  start_or_update_camera, start_camera, stop_camera, drop_worker, handle_event, events_ended,
  new_worker,
}
use cam_bus.Supervisor.Uplinks.{Address, address_of, command_request, outside}
use cam_bus.Supervisor.Handlers.{
  App, clean_info, with_uplink, always_on_request, cleanup_camera, cleanup_each, with_workers,
  stop_all, always_on_uplink, adopt_uplink, enable_camera, info_received, handle_info_message,
  command_start, command_stop, command_status, command_received, request_received,
  handle_uplink_message, or_last, fill_status,
}
use cam_bus.Supervisor.Steps.{
  Step, info_message, uplink_message, camera_event, stream_end, driver_status, uplink_event,
  shutdown, app_step, app_run,
}
use cam_bus.Supervisor.Invariant.{
  Sound, upsert_camera_info-Sound, put_worker-Sound, drop_worker-Sound, remove_camera_info-Sound,
  clear_uplink_state-Sound, set_uplink_state-Sound, set_uplink_state-cameras,
  maybe_stop_uplink_state-Sound, touch_worker-Sound, update_worker_status-Sound,
}
use cam_bus.Supervisor.Held.{Held, held, handle_uplink_status-Held, outside-Keeps}

abbrev pub SoundApp : {W : Type 0} → String → App W → Type 0
SoundApp base a = Sound base a.1.0

upserted :
    (s : Supervisor) (key : String) (i : CameraInfo)
    → lookup key (upsert_camera_info s key i).cameras ≢ none
unfolding upsert_camera_info
upserted s key i e = ground (arith, lookup-insert key key i s.cameras, eq_refl key, e)

module _ {W : Type 0} (sv : Services W) {base : String} where
  start_camera-Sound :
      (again : Bool) (s : Supervisor) (info : CameraInfo) (now : ℕ) (w : W)
      → Sound base s
      → lookup (key_for info) s.cameras ≢ none
      → Sound base (start_camera sv again s info now w).0
  unfolding start_camera refresh new_worker
  start_camera-Sound again s info now w v known = elim (Option-cases (sv.get_driver info)) [
    | inl missing ↦
        rw (missing, start_camera)
          (if-rule (λ (r : Supervisor × W). Sound base r.0) again (λ _. v) (λ _. v))
    | inr (drv, found) ↦ rw (found, start_camera) (put_worker-Sound v (new_worker info _ now) known)
  ]

  start_or_update_camera-Sound :
      (s : Supervisor) (info : CameraInfo) (now : ℕ) (w : W)
      → Sound base s
      → lookup (key_for info) s.cameras ≢ none
      → Sound base (start_or_update_camera sv s info now w).0
  unfolding start_or_update_camera
  start_or_update_camera-Sound s info now w v known =
      elim (Option-cases (lookup (key_for info) s.workers)) [
        | inl fresh ↦
            rw (fresh, start_or_update_camera) (start_camera-Sound false s info now w v known)
        | inr (worker, found) ↦
            rw (found, start_or_update_camera)
              (if-rule (λ (r : Supervisor × W). Sound base r.0) (camera_info_equal worker.info info)
                (λ _. v)
                (λ _.
                  start_camera-Sound true (drop_worker s (key_for info)) info now
                    (sv.cancel_worker (key_for info) w) (drop_worker-Sound v (key_for info)) known))
      ]

  -- what is left of a camera after its worker was stopped and its entries were deleted
  pub forgotten-Sound :
      (s : Supervisor) (key : String) (w : W)
      → Sound base s
      → Sound base (clear_uplink_state (remove_camera_info (stop_camera sv s key w).0 key) key)
  unfolding stop_camera
  forgotten-Sound s key w v = elim (Option-cases (lookup key s.workers)) [
    | inl idle ↦
        rw (idle, stop_camera) (clear_uplink_state-Sound (remove_camera_info-Sound v key idle) key)
    | inr (worker, found) ↦
        rw (found, stop_camera)
          (clear_uplink_state-Sound
            (remove_camera_info-Sound (drop_worker-Sound v key) key
              (ground (arith, lookup-erase key key s.workers, eq_refl key)))
            key)
  ]

  cleanup_camera-Sound :
      (info : CameraInfo) (a : App W) → SoundApp base a → SoundApp base (cleanup_camera sv info a)
  unfolding cleanup_camera refresh
  cleanup_camera-Sound info (m, (s, w)) v =
      (stop_by_camera_keeps (outside sv) (λ (sw : Supervisor × W). Held base _ sw.0)
        (outside-Keeps sv) m info _ (held (forgotten-Sound s (key_for info) w v))).sound

  cleanup_each-Sound :
      (infos : List (String × CameraInfo)) (a : App W)
      → SoundApp base a
      → SoundApp base (cleanup_each sv infos a)
  unfolding cleanup_each
  cleanup_each-Sound [] a v = v
  cleanup_each-Sound ((_, info) ∷ more) a v =
      cleanup_each-Sound more (cleanup_camera sv info a) (cleanup_camera-Sound info a v)

  stop_all-Sound : (a : App W) → SoundApp base a → SoundApp base (stop_all sv a)
  unfolding stop_all
  stop_all-Sound (m, (s, w)) v =
      cleanup_each-Sound (with_workers sv s.workers s.cameras) (m, (s, w)) v

  -- The camera's entry stays while the uplink manager is called.
  always_on_uplink-Sound :
      (info : CameraInfo) (a : App W)
      → SoundApp base a
      → SoundApp base (always_on_uplink sv info a)
        × ((always_on_uplink sv info a).1.0.cameras ≡ a.1.0.cameras)
  unfolding always_on_uplink refresh clear_uplink_state
  always_on_uplink-Sound info (m, sw) v =
      let P = λ (t : Supervisor × W). Held base sw.0 t.0 in
      let Q = λ (r : App W). SoundApp base r × (r.1.0.cameras ≡ sw.0.cameras) in
      let req = always_on_request info in
      let (e, m1, sw1) = start (outside sv) m req sw in
      let h1 = start_keeps (outside sv) P (outside-Keeps sv) m req sw (held v) in
      let h2 = stop_by_camera_keeps (outside sv) P (outside-Keeps sv) m info sw (held v) in
      if-rule Q (not (always_on_enabled m info)) (λ _. (v, refl))
        λ _.
          if-rule Q (trim_space info.central_host == "")
            (λ _. (clear_uplink_state-Sound h2.sound (key_for info), h2.same_cameras))
            λ _. elim (Option-cases e) [
              | inl good ↦ rw good (
                set_uplink_state-Sound h1.sound (key_for info) req,
                set_uplink_state-cameras sw1.0 (key_for info) req ∙ h1.same_cameras,
              )
              | inr (message, bad) ↦ rw bad (h1.sound, h1.same_cameras)
            ]

  adopt_uplink-Sound :
      (info : CameraInfo) (sw : Supervisor × W)
      → Sound base sw.0
      → lookup (key_for info) sw.0.cameras ≢ none
      → Sound base (adopt_uplink sv info sw).1.0
        × (key_for (adopt_uplink sv info sw).0 ≡ key_for info)
        × (lookup (key_for info) (adopt_uplink sv info sw).1.0.cameras ≢ none)
  unfolding adopt_uplink refresh with_uplink key_for
  adopt_uplink-Sound info (s, w) v known =
      elim (Option-cases (active_uplink_state s (key_for info))) [
        | inl idle ↦ rw (idle, adopt_uplink) (v, refl, known)
        | inr (st, found) ↦
            rw (found, adopt_uplink)
              (
                upsert_camera_info-Sound v (with_uplink st info),
                refl,
                upserted s (key_for info) (with_uplink st info),
              )
      ]

  enable_camera-Sound :
      (info : CameraInfo) (now : ℕ) (a : App W)
      → SoundApp base a
      → SoundApp base (enable_camera sv info now a)
  unfolding enable_camera
  enable_camera-Sound info now (m, (s, w)) v =
      let key = key_for info in
      let (info', sw1) = adopt_uplink sv info (upsert_camera_info s key info, w) in
      let (m', (s2, w2)) = always_on_uplink sv info' (m, sw1) in
      let (_, w3) = publish_ha_discovery sv s2 info' w2 in
      let (v1, same_key, known) =
        adopt_uplink-Sound info (upsert_camera_info s key info, w) (upsert_camera_info-Sound v info)
          (upserted s key info) in
      let (v2, same_cameras) = always_on_uplink-Sound info' (m, sw1) v1 in
      start_or_update_camera-Sound s2 info' now w3 v2 (rw (same_cameras, same_key) known)

  info_received-Sound :
      (address : CameraInfo) (r : Result String CameraInfo) (now : ℕ) (a : App W)
      → SoundApp base a
      → SoundApp base (info_received sv address r now a)
  unfolding info_received
  info_received-Sound address (err _) now a v = v
  info_received-Sound address (ok given) now a v =
      let info = clean_info a.0 address given in
      if-rule (SoundApp base) info.enabled (λ _. enable_camera-Sound info now a v)
        (λ _. cleanup_camera-Sound info a v)

  handle_info_message-Sound :
      (topic payload : String) (now : ℕ) (a : App W)
      → SoundApp base a
      → SoundApp base (handle_info_message sv topic payload now a)
  unfolding handle_info_message
  handle_info_message-Sound topic payload now a v =
      elim (Option-cases (address_of 6 a.1.0.base_topic topic)) [
        | inl invalid ↦ rw (invalid, handle_info_message) v
        | inr (at, found) ↦
            rw (found, handle_info_message)
              (if-rule (SoundApp base) (trim_space payload == "" || trim_space payload == "null")
                (λ _. cleanup_camera-Sound at.camera a v)
                (λ _. info_received-Sound at.camera (sv.parse_info payload) now a v))
      ]

  command_start-Sound :
      (camera : CameraInfo) (req : Request) (a : App W)
      → SoundApp base a
      → SoundApp base (command_start sv camera req a)
  unfolding command_start refresh
  command_start-Sound camera req (m, sw) v =
      let h =
        start_keeps (outside sv) (λ (t : Supervisor × W). Held base sw.0 t.0) (outside-Keeps sv) m
          req sw (held v) in
      elim (Option-cases (start (outside sv) m req sw).0) [
        | inl good ↦ rw (good, command_start) (set_uplink_state-Sound h.sound (key_for camera) req)
        | inr (message, bad) ↦ rw (bad, command_start) h.sound
      ]

  command_stop-Sound :
      (camera : CameraInfo) (req : Request) (a : App W)
      → SoundApp base a
      → SoundApp base (command_stop sv camera req a)
  unfolding command_stop refresh
  command_stop-Sound camera req (m, sw) v =
      let h =
        stop_keeps (outside sv) (λ (t : Supervisor × W). Held base sw.0 t.0) (outside-Keeps sv) m
          req sw (held v) in
      if-rule (SoundApp {W = W} base) (always_on_enabled m camera) (λ _. v)
        λ _. elim (Option-cases (stop (outside sv) m req sw).0) [
          | inl good ↦ rw good (maybe_stop_uplink_state-Sound h.sound (key_for camera))
          | inr (message, bad) ↦ rw bad h.sound
        ]

  command_status-Sound :
      (camera : CameraInfo) (req : Request) (a : App W)
      → SoundApp base a
      → SoundApp base (command_status sv camera req a)
  unfolding command_status
  command_status-Sound camera req (m, sw) v =
      elim (Option-cases
        (or_last (status_for m req) (lookup (key_for camera) sw.0.uplink_status))) [
          | inl missing ↦ rw (missing, command_status) v
          | inr (st, found) ↦
              rw (found, command_status)
                (handle_uplink_status-Held sv (fill_status req st) sw (held v)).sound
        ]

  command_received-Sound :
      (at : Address) (req : Request) (a : App W)
      → SoundApp base a
      → SoundApp base (command_received sv at req a)
  unfolding command_received
  command_received-Sound at req a v =
      let action = to_lower at.action in
      if-rule (SoundApp base) (action == "start") (λ _. command_start-Sound at.camera req a v)
        λ _.
          if-rule (SoundApp base) (action == "stop") (λ _. command_stop-Sound at.camera req a v)
            λ _.
              if-rule (SoundApp base) (action == "status")
                (λ _. command_status-Sound at.camera req a v) (λ _. v)

  request_received-Sound :
      (at : Address) (r : Result String Request) (a : App W)
      → SoundApp base a
      → SoundApp base (request_received sv at r a)
  unfolding request_received
  request_received-Sound at (err _) a v = v
  request_received-Sound at (ok given) a v =
      let req = resolve_request a.0 (command_request at given) in
      elim (Option-cases (validate req)) [
        | inl good ↦ rw (good, request_received) (command_received-Sound at req a v)
        | inr (message, bad) ↦ rw (bad, request_received) v
      ]

  handle_uplink_message-Sound :
      (topic payload : String) (a : App W)
      → SoundApp base a
      → SoundApp base (handle_uplink_message sv topic payload a)
  unfolding handle_uplink_message
  handle_uplink_message-Sound topic payload a v =
      elim (Option-cases (address_of 7 a.1.0.base_topic topic)) [
        | inl invalid ↦ rw (invalid, handle_uplink_message) v
        | inr (at, found) ↦
            rw (found, handle_uplink_message)
              (request_received-Sound at (sv.parse_request payload) a v)
      ]

  handle_event-Sound :
      (s : Supervisor) (info : CameraInfo) (evt : AnalyticEvent) (now : ℕ) (w : W)
      → Sound base s
      → Sound base (handle_event sv s info evt now w).0
  unfolding handle_event
  handle_event-Sound s info evt now w v =
      let v' = touch_worker-Sound v (key_for info) now in
      if-rule (λ (r : Supervisor × W). Sound base r.0) (is_enabled sv.engines) (λ _. v') (λ _. v')

  pub app_step-Sound : (st : Step) (a : App W) → SoundApp base a → SoundApp base (app_step sv st a)
  unfolding app_step events_ended
  app_step-Sound (info_message topic payload now) a v =
      handle_info_message-Sound topic payload now a v
  app_step-Sound (uplink_message topic payload) a v = handle_uplink_message-Sound topic payload a v
  app_step-Sound (camera_event info evt now) (m, (s, w)) v = handle_event-Sound s info evt now w v
  app_step-Sound (stream_end info now) a v = update_worker_status-Sound v (key_for info) _ now
  app_step-Sound (driver_status key update now) a v = update_worker_status-Sound v key update now
  app_step-Sound (uplink_event e) (m, sw) v =
      (step_keeps (outside sv) (λ (t : Supervisor × W). Held base sw.0 t.0) (outside-Keeps sv) m e
        sw (held v)).sound
  app_step-Sound shutdown a v = stop_all-Sound a v

  -- A sound state stays sound, whatever messages arrive and whatever the workers and the uplink manager
  -- do, in any order: the base topic is the same, cameras and workers stand under their own keys, a
  -- worker's camera is known, an uplink's state has more starts than stops, and no key stands twice in
  -- a map.
  pub app_run-Sound :
      (steps : List Step) (a : App W) → SoundApp base a → SoundApp base (app_run sv steps a)
  unfolding app_run
  app_run-Sound [] a v = v
  app_run-Sound (st ∷ steps) a v = app_run-Sound steps (app_step sv st a) (app_step-Sound st a v)
