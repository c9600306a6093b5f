-- ===== src/Drivers/Snapshots.antt =====
-- internal/drivers/hikvision.go: where the snapshots of events are stored.
pub mod Keys
use cam_bus.Base.{ℕ, String, ◌<>◌, [], ◌∷◌, ◌==◌, nat_eq, if◌then◌else◌}
use cam_bus.Base.Str.{trim_space, to_lower, replace_char, join}
use cam_bus.Base.Str.Decimal.{show_int}
use cam_bus.Base.Str.Hex.{show_two, show_four}
use cam_bus.Base.Time.{unix_nano, date}
use cam_bus.Core.{CameraInfo, AnalyticEvent}
use cam_bus.Drivers.Camera.{Camera}

-- safePath
unfoldable pub safe_path : String → String → String
safe_path v def =
    let given = trim_space v in
    replace_char b'/' "-" (replace_char b' ' "_" (to_lower (if given == "" then def else given)))

-- the key of a snapshot that was taken at `ts`
unfoldable pub snapshot_key : CameraInfo → AnalyticEvent → ℕ → String
unfolding safe_path
snapshot_key info evt ts =
    let (year, (month, day)) = date ts in
    join "/" (
      safe_path info.tenant "default"
      ∷ safe_path info.building "building"
      ∷ safe_path info.floor "floor"
      ∷ safe_path info.device_type "device"
      ∷ safe_path info.device_id "id"
      ∷ safe_path evt.analytic_type "analytic"
      ∷ show_four year
      ∷ show_two month
      ∷ show_two day
      ∷ (evt.event_id <> "_" <> show_int (unix_nano ts) <> ".jpg")
      ∷ [])

module _ {W : Type 0} (cam : Camera W) where
  -- buildSnapshotKey
  unfoldable pub build_snapshot_key : CameraInfo → AnalyticEvent → W → String × W
  unfolding snapshot_key
  build_snapshot_key info evt w =
      let (time, w') = cam.now w in
      if nat_eq evt.timestamp 0
      then (snapshot_key info evt time, w')
      else (snapshot_key info evt evt.timestamp, w)
