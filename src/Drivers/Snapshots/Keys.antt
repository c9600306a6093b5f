-- ===== src/Drivers/Snapshots/Keys.antt =====
-- internal/drivers/hikvision.go: the parts of a snapshot's key.
use cam_bus.Base.{ℕ, String, ◌<>◌, List, [], ◌∷◌, ◌≡◌, refl}
use cam_bus.Base.Str.{split}
use cam_bus.Base.Str.Split.{Without, Without-append, replace_char-Without, split-join}
use cam_bus.Base.Str.Digits.{show_int-no_slash, show_two-no_slash, show_four-no_slash}
use cam_bus.Base.Str.Decimal.{show_int}
use cam_bus.Base.Str.Hex.{show_two, show_four}
use cam_bus.Base.Time.{unix_nano, date}
use cam_bus.Core.{CameraInfo, AnalyticEvent}
use cam_bus.Drivers.Snapshots.{safe_path, snapshot_key}

safe_path-Without : (v def : String) → Without b'/' (safe_path v def)
unfolding safe_path
safe_path-Without v def = replace_char-Without b'/' "-" _ (refl, tt)

-- The parts of the key: six names of the camera and the event, the date, and the file.
abbrev pub key_parts : CameraInfo → AnalyticEvent → ℕ → List String
key_parts info evt ts =
    safe_path info.tenant "default"
    ∷ safe_path info.building "building"
    ∷ safe_path info.floor "floor"
    ∷ safe_path info.device_type "device"
    ∷ safe_path info.device_id "id"
    ∷ safe_path evt.analytic_type "analytic"
    ∷ show_four (date ts).0
    ∷ show_two (date ts).1.0
    ∷ show_two (date ts).1.1
    ∷ (evt.event_id <> "_" <> show_int (unix_nano ts) <> ".jpg")
    ∷ []

-- Whatever the names of a camera and of an event's type, the key of the event's snapshot has exactly
-- ten parts between slashes: the six names made safe, the year, the month, the day and the file, if
-- the event's id holds no slash.
pub split-snapshot_key :
    (info : CameraInfo) (evt : AnalyticEvent) (ts : ℕ)
    → Without b'/' evt.event_id
    → split b'/' (snapshot_key info evt ts) ≡ key_parts info evt ts
unfolding snapshot_key
split-snapshot_key info evt ts plain =
    let file = Without-append b'/' evt.event_id ("_" <> (show_int (unix_nano ts) <> ".jpg")) plain (
      Without-append b'/' "_" (show_int (unix_nano ts) <> ".jpg") (refl, tt)
        (Without-append b'/' (show_int (unix_nano ts)) ".jpg" (show_int-no_slash (unix_nano ts))
          (refl, (refl, (refl, (refl, tt)))))) in
    split-join b'/' "/" (safe_path info.tenant "default") _ refl (
      safe_path-Without info.tenant "default",
      (
        safe_path-Without info.building "building",
        (
          safe_path-Without info.floor "floor",
          (
            safe_path-Without info.device_type "device",
            (
              safe_path-Without info.device_id "id",
              (
                safe_path-Without evt.analytic_type "analytic",
                (
                  show_four-no_slash (date ts).0,
                  (show_two-no_slash (date ts).1.0, (show_two-no_slash (date ts).1.1, (file, tt))),
                ),
              ),
            ),
          ),
        ),
      ),
    )
