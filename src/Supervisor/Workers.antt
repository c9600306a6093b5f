-- ===== src/Supervisor/Workers.antt =====
-- internal/supervisor/supervisor.go: the workers of the cameras, and the events that they publish.
use cam_bus.Base.{ℕ, Bool, true, false, String, none, some, List, [], ◌∷◌, if◌then◌else◌}
use cam_bus.Base.Dict.{lookup, erase}
use cam_bus.Core.{CameraInfo, AnalyticEvent}
use cam_bus.Drivers.{connecting, offline}
use cam_bus.Engines.{is_enabled, process_all}
use cam_bus.Supervisor.{
  Supervisor, CameraWorker, key_for, event_topic, camera_info_equal, touch_worker,
  update_worker_status, put_worker,
}
use cam_bus.Supervisor.Services.{Services, Driver, Message, event, refresh, publish_logged}

-- resolveActiveAnalytics
unfoldable pub resolve_active_analytics : Driver → CameraInfo → List String
resolve_active_analytics drv info = elim drv.active_analytics [
  | [] ↦ info.analytics
  | a ∷ more ↦ a ∷ more
]

-- the worker that a camera starts with
unfoldable pub new_worker : CameraInfo → List String → ℕ → CameraWorker
new_worker info analytics now = record {
  info = info;
  last_event_at = none;
  status = connecting;
  status_since = now;
  status_reason = "aguardando conexão";
  ever_connected = false;
  analytics = analytics;
}

abbrev pub drop_worker : Supervisor → String → Supervisor
drop_worker s key = record s { workers = erase key s.workers }

-- the message of an event, which goes without its snapshot
unfoldable pub event_message : Supervisor → CameraInfo → AnalyticEvent → Message
event_message s info evt = record {
  topic = event_topic s info evt.analytic_type;
  retained = false;
  payload = event (record evt { snapshot_b64 = "" });
}

-- the end of the goroutine that publishes a worker's events
unfoldable pub events_ended : Supervisor → CameraInfo → ℕ → Supervisor
events_ended s info now =
    update_worker_status s (key_for info)
      (record { state = offline; reason = "event stream encerrado" }) now

module _ {W : Type 0} (sv : Services W) where
  -- `startOrUpdateCamera` below the treatment of a worker that exists. Without a driver, the
  -- configuration is refreshed, as it is where a worker was stopped: `again` says that one was.
  unfoldable pub start_camera : Bool → Supervisor → CameraInfo → ℕ → W → Supervisor × W
  unfolding resolve_active_analytics new_worker
  start_camera again s info now w = elim (sv.get_driver info) [
    | none ↦ if again then refresh sv (refresh sv (s, w)) else refresh sv (s, w)
    | some drv ↦ refresh sv (
      put_worker s (key_for info) (new_worker info (resolve_active_analytics drv info) now),
      sv.start_worker (key_for info) info w,
    )
  ]

  -- startOrUpdateCamera
  unfoldable pub start_or_update_camera : Supervisor → CameraInfo → ℕ → W → Supervisor × W
  unfolding start_camera
  start_or_update_camera s info now w =
      let key = key_for info in
      elim (lookup key s.workers) [
        | none ↦ start_camera false s info now w
        | some worker ↦
            if camera_info_equal worker.info info
            then (s, w)
            else start_camera true (drop_worker s key) info now (sv.cancel_worker key w)
      ]

  -- stopCamera
  unfoldable pub stop_camera : Supervisor → String → W → Supervisor × W
  stop_camera s key w = elim (lookup key s.workers) [
    | none ↦ (s, w)
    | some _ ↦ (drop_worker s key, sv.cancel_worker key w)
  ]

  unfoldable pub publish_derived : Supervisor → CameraInfo → List AnalyticEvent → W → W
  unfolding event_message
  publish_derived s info [] w = w
  publish_derived s info (evt ∷ evts) w =
      publish_derived s info evts (publish_logged sv (event_message s info evt) w)

  -- an event of the channel, in the goroutine that publishes it and what the engines derive
  unfoldable pub handle_event : Supervisor → CameraInfo → AnalyticEvent → ℕ → W → Supervisor × W
  unfolding publish_derived
  handle_event s info evt now w =
      let s' = touch_worker s (key_for info) now in
      let w' = publish_logged sv (event_message s info evt) w in
      if is_enabled sv.engines
      then (let (out, w'') = process_all sv.engines evt w' in (s', publish_derived s info out w''))
      else (s', w')
