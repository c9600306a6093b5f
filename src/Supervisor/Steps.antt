-- ===== src/Supervisor/Steps.antt =====
-- internal/supervisor/supervisor.go: what happens to the supervisor, one thing after another.
use cam_bus.Base.{ℕ, String, List, [], ◌∷◌}
use cam_bus.Core.{CameraInfo, AnalyticEvent}
use cam_bus.Drivers.{StatusUpdate}
use cam_bus.Uplink.Manager.Operations.{Event, step}
use cam_bus.Supervisor.{update_worker_status}
use cam_bus.Supervisor.Services.{Services}
use cam_bus.Supervisor.Workers.{handle_event, events_ended}
use cam_bus.Supervisor.Uplinks.{outside}
use cam_bus.Supervisor.Handlers.{App, handle_info_message, handle_uplink_message, stop_all}

-- Messages of the broker with their topic, payload and time; what the workers do; what happens to
-- the uplink manager on its own (timers, the reconciler); and the end of `Run`.
pub data Step : Type 0 where
  info_message : String → String → ℕ → Step
  uplink_message : String → String → Step
  camera_event : CameraInfo → AnalyticEvent → ℕ → Step
  stream_end : CameraInfo → ℕ → Step
  driver_status : String → StatusUpdate → ℕ → Step
  uplink_event : Event → Step
  shutdown : Step

module _ {W : Type 0} (sv : Services W) where
  -- A handler acts as a whole, also where the source unlocks the supervisor in between.
  unfoldable pub app_step : Step → App W → App W
  app_step (info_message topic payload now) a = handle_info_message sv topic payload now a
  app_step (uplink_message topic payload) a = handle_uplink_message sv topic payload a
  app_step (camera_event info evt now) (m, (s, w)) = (m, handle_event sv s info evt now w)
  app_step (stream_end info now) (m, (s, w)) = (m, (events_ended s info now, w))
  app_step (driver_status key update now) (m, (s, w)) =
      (m, (update_worker_status s key update now, w))
  app_step (uplink_event e) (m, sw) = step (outside sv) m e sw
  app_step shutdown a = stop_all sv a

  unfoldable pub app_run : List Step → App W → App W
  unfolding app_step
  app_run [] a = a
  app_run (st ∷ steps) a = app_run steps (app_step st a)
