-- ===== src/Supervisor/Events.antt =====
-- internal/supervisor/supervisor.go: what a worker publishes of an event.
use cam_bus.Base.{ℕ, false, List, [], ◌∷◌, All, ◌≡◌, refl, if-rule}
use cam_bus.Core.{CameraInfo, AnalyticEvent}
use cam_bus.Engines.{Engine, process_each, process_all, is_enabled}
use cam_bus.Supervisor.{Supervisor, event_topic}
use cam_bus.Supervisor.Services.{Services, Message, event, publish_logged}
use cam_bus.Supervisor.Workers.{handle_event, publish_derived, event_message}

-- A message for an event of the camera: it is not retained, it stands under the topic of the event's
-- analytic type, and it goes without the snapshot.
abbrev pub EventOf : Supervisor → CameraInfo → Message → Type 0
EventOf s info message =
    (evt : AnalyticEvent) × (message.payload ≡ event evt)
    × (evt.snapshot_b64 ≡ "")
    × (message.topic ≡ event_topic s info evt.analytic_type)
    × (message.retained ≡ false)

module _ {κ} {W : Type 0} (P : W → Type κ) where
  -- What the engine does keeps `P`.
  abbrev pub EngineKeeps : Engine W → Type κ
  EngineKeeps e = (evt : AnalyticEvent) (w : W) → P w → P (e.process evt w).1

  process_each_keeps :
      (es : List (Engine W)) (evt : AnalyticEvent) (w : W)
      → All EngineKeeps es
      → P w
      → P (process_each es evt w).1
  unfolding process_each
  process_each_keeps [] evt w _ p = p
  process_each_keeps (e ∷ es) evt w (k, ks) p =
      if-rule (λ (r : List AnalyticEvent × W). P r.1) e.enabled
        (λ _. process_each_keeps es evt (e.process evt w).1 ks (k evt w p))
        (λ _. process_each_keeps es evt w ks p)

  module _ (sv : Services W) (s : Supervisor) (info : CameraInfo) where
    -- Publishing a message for an event of the camera keeps `P`.
    abbrev pub PublishKeeps : Type κ
    PublishKeeps =
        (message : Message) (w : W) → EventOf s info message → P w → P (sv.publish message w).1

    publish_event_keeps :
        (evt : AnalyticEvent) (w : W)
        → PublishKeeps
        → P w
        → P (publish_logged sv (event_message s info evt) w)
    unfolding publish_logged event_message
    publish_event_keeps evt w keeps p =
        keeps (event_message s info evt) w
          (record evt { snapshot_b64 = "" }, refl, refl, refl, refl) p

    publish_derived_keeps :
        (evts : List AnalyticEvent) (w : W)
        → PublishKeeps
        → P w
        → P (publish_derived sv s info evts w)
    unfolding publish_derived
    publish_derived_keeps [] w keeps p = p
    publish_derived_keeps (evt ∷ evts) w keeps p =
        publish_derived_keeps evts (publish_logged sv (event_message s info evt) w) keeps
          (publish_event_keeps evt w keeps p)

    -- Beside what its engines do, a worker does nothing for an event but publish messages for events of
    -- its camera, each without its snapshot, under the topic of its analytic type and not retained: what
    -- these and the engines keep of the world is kept.
    pub handle_event_keeps :
        (evt : AnalyticEvent) (now : ℕ) (w : W)
        → PublishKeeps
        → All EngineKeeps sv.engines.engines
        → P w
        → P (handle_event sv s info evt now w).1
    unfolding handle_event process_all
    handle_event_keeps evt now w keeps engines p =
        let w' = publish_logged sv (event_message s info evt) w in
        let p' = publish_event_keeps evt w keeps p in
        if-rule (λ (r : Supervisor × W). P r.1) (is_enabled sv.engines)
          (λ _.
            publish_derived_keeps (process_all sv.engines evt w').0 _ keeps
              (process_each_keeps sv.engines.engines evt w' engines p'))
          (λ _. p')
