-- ===== src/Supervisor/StatusReports.antt =====
-- internal/supervisor/supervisor.go: the periodic reports of the cameras and of the collector.
pub mod Counting
use cam_bus.Base.{
  ℕ, suc, ◌+◌, true, String, Option, none, some, List, [], ◌∷◌, map, ◌==◌, ◌&&◌, length, ◌≡◌, refl,
  arith, if-rule, if◌then◌else◌,
}
use cam_bus.Core.{CameraInfo}
use cam_bus.Drivers.{ConnectionState, connecting, online, offline, not_established}
use cam_bus.Supervisor.{Supervisor, CameraWorker, camera_status_topic, collector_status_topic}
use cam_bus.Supervisor.Services.{
  Services, str, num, flag, texts, time, measured, object, Fields, no_fields, field, Message,
  config, publish_logged,
}

-- the value of a ConnectionState
unfoldable pub state_text : ConnectionState → String
state_text connecting = "connecting"
state_text online = "online"
state_text offline = "offline"
state_text not_established = "not_established"

-- What `gopsutil` says of the process; zero where it fails.
pub record Metrics : Type 0 where
  pub cpu_percent : String
  pub memory_percent : String
  pub memory_rss_bytes : ℕ

-- the message of publishCollectorStatusForBuilding
unfoldable pub collector_message : Supervisor → String → Metrics → ℕ → String → String → ℕ → Message
collector_message s hostname metrics now tenant building cameras = record {
  topic = collector_status_topic s tenant building;
  retained = true;
  payload = config (
      object (
        field "collector" (str "cam-bus") (
          field "status" (str "online") (
            field "timestamp" (time now) (
              field "hostname" (str hostname) (
                field "shard" (str s.shard) (
                  field "cameras" (num cameras) (
                    field "cpu_percent" (measured metrics.cpu_percent) (
                      field "memory_percent" (measured metrics.memory_percent) (
                        field "memory_rss_bytes" (num metrics.memory_rss_bytes) no_fields))))))))));
}

abbrev given_text : String → String → Fields → Fields
given_text key value rest = if value == "" then rest else field key (str value) rest

abbrev given_texts : String → List String → Fields → Fields
given_texts key [] rest = rest
given_texts key (t ∷ ts) rest = field key (texts (t ∷ ts)) rest

abbrev given_time : String → Option ℕ → Fields → Fields
given_time key none rest = rest
given_time key (some t) rest = field key (time t) rest

-- the message of publishCameraStatus; the zero time does not occur as `status_since`
unfoldable pub camera_message : Supervisor → CameraWorker → ℕ → Message
unfolding state_text
camera_message s w now = record {
  topic = camera_status_topic s w.info;
  retained = true;
  payload = config (
      object (
        field "tenant" (str w.info.tenant) (
          field "building" (str w.info.building) (
            field "floor" (str w.info.floor) (
              field "device_type" (str w.info.device_type) (
                field "device_id" (str w.info.device_id) (
                  field "status" (str (state_text w.status)) (
                    field "timestamp" (time now) (
                      given_time "last_event_at" w.last_event_at (
                        given_text "shard" w.info.shard (
                          field "status_since" (time w.status_since) (
                            given_text "status_reason" w.status_reason (
                              given_texts "analytics_configured" w.info.analytics (
                                given_texts "analytics_active" w.analytics (
                                  if w.ever_connected
                                  then field "ever_connected" (flag true) no_fields
                                  else no_fields)))))))))))))));
}

-- A building and the cameras counted in it.
pub record Building : Type 0 where
  pub tenant : String
  pub building : String
  pub cameras : ℕ

-- buildingMap[bk]++
unfoldable pub count_camera : CameraInfo → List Building → List Building
count_camera info [] = record { tenant = info.tenant; building = info.building; cameras = 1 } ∷ []
count_camera info (b ∷ bs) =
    let rest : List Building = b ∷ count_camera info bs in
    if b.tenant == info.tenant && b.building == info.building
    then record b { cameras = b.cameras + 1 } ∷ bs
    else rest

-- the counts after the cameras of the workers, in order
unfoldable pub count_all : List CameraWorker → List Building → List Building
unfolding count_camera
count_all [] bs = bs
count_all (w ∷ ws) bs = count_all ws (count_camera w.info bs)

-- snapshotWorkers
unfoldable pub snapshot_workers : Supervisor → List CameraWorker
snapshot_workers s = map (λ (_, w). w) s.workers

module _ {W : Type 0} (sv : Services W) where
  publish_cameras : Supervisor → ℕ → List CameraWorker → W → W
  publish_cameras s now [] w = w
  publish_cameras s now (worker ∷ more) w =
      publish_cameras s now more (publish_logged sv (camera_message s worker now) w)

  publish_buildings : Supervisor → String → Metrics → ℕ → List Building → W → W
  publish_buildings s hostname metrics now [] w = w
  publish_buildings s hostname metrics now (b ∷ more) w =
      publish_buildings s hostname metrics now more (
        publish_logged sv (collector_message s hostname metrics now b.tenant b.building b.cameras)
          w)

  -- publishStatuses
  unfoldable pub publish_statuses : Supervisor → String → Metrics → ℕ → W → W
  unfolding publish_cameras publish_buildings snapshot_workers count_all
  publish_statuses s hostname metrics now w =
      let workers = snapshot_workers s in
      publish_buildings s hostname metrics now (count_all workers [])
        (publish_cameras s now workers w)
