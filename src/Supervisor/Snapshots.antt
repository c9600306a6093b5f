-- ===== src/Supervisor/Snapshots.antt =====
-- internal/supervisor/supervisor.go: the cameras as the MediaMTX generators see them.
pub mod Laws
use Prim.Native.String
use cam_bus.Base.{
  ℕ, Bool, true, false, String, Option, none, some, List, [], ◌∷◌, map, ◌==◌, ◌&&◌, ◌||◌, not,
  if◌then◌else◌,
}
use cam_bus.Base.Int.{ℤ, pos}
use cam_bus.Base.Str.{equal_fold}
use cam_bus.Base.Dict.{Dict, lookup}
use cam_bus.Core.{CameraInfo}
use cam_bus.Uplink.Path.{central_path_for}
use cam_bus.Supervisor.{Supervisor, UplinkState, is_active, normalize_uplink_match}

abbrev same_path : String → String → Bool
same_path a b = not (a == "") && not (b == "") && equal_fold b a

-- the tests of the loop of `findUplinkStateForCameraLocked`
unfoldable pub state_is_of : CameraInfo → UplinkState → Bool
unfolding is_active
state_is_of info st =
    let device = normalize_uplink_match info.device_id in
    let proxy = normalize_uplink_match info.proxy_path in
    let central = normalize_uplink_match info.central_path in
    let state_proxy = normalize_uplink_match st.proxy_path in
    let state_central = normalize_uplink_match st.central_path in
    is_active st
    && (not (device == "") && equal_fold (normalize_uplink_match st.camera_id) device
        || same_path proxy state_proxy
        || same_path central state_central
        || same_path proxy state_central)

-- findUplinkStateForCameraLocked
unfoldable pub find_uplink_state : CameraInfo → Dict UplinkState → Option UplinkState
unfolding state_is_of
find_uplink_state info [] = none
find_uplink_state info ((_, st) ∷ more) =
    if state_is_of info st then some st else find_uplink_state info more

abbrev or_own {ℓ} : {A : Type ℓ} → Option A → Option A → Option A
or_own (some fallback) own = some fallback
or_own none own = own

-- the state that a snapshot uses for a camera
unfoldable pub state_for : Supervisor → String → CameraInfo → Option UplinkState
unfolding find_uplink_state is_active
state_for s key info = elim (lookup key s.uplink_states) [
  | none ↦ find_uplink_state info s.uplink_states
  | some own ↦
      if is_active own then some own else or_own (find_uplink_state info s.uplink_states) (some own)
]

unfoldable pub no_uplink : CameraInfo → CameraInfo
no_uplink info = record info { central_host = ""; central_path = ""; central_srt_port = pos 0 }

unfoldable pub proxy_view : CameraInfo → Option UplinkState → CameraInfo
unfolding is_active no_uplink
proxy_view info none = no_uplink info
proxy_view info (some st) =
    if is_active st
    then record info {
      central_host = st.central_host;
      central_path = st.central_path;
      central_srt_port = st.central_srt_port;
      proxy_path = if st.proxy_path == "" then info.proxy_path else st.proxy_path;
    }
    else no_uplink info

-- snapshotCameraInfosForMediaMTX
unfoldable pub snapshot_for_proxy : Supervisor → List CameraInfo
unfolding proxy_view state_for
snapshot_for_proxy s = map (λ (key, info). proxy_view info (state_for s key info)) s.cameras

with_state : CameraInfo → Option UplinkState → CameraInfo
unfolding is_active
with_state info none = info
with_state info (some st) =
    if is_active st
    then record info {
      central_path = if st.central_path == "" then info.central_path else st.central_path;
      proxy_path = if st.proxy_path == "" then info.proxy_path else st.proxy_path;
    }
    else info

central_view : CameraInfo → CameraInfo
central_view info = record info {
  central_path = if info.central_path == "" then central_path_for info else info.central_path;
}

-- snapshotCameraInfosForCentralMediaMTX
unfoldable pub snapshot_for_central : Supervisor → List CameraInfo
unfolding with_state central_view state_for
snapshot_for_central s =
    map (λ (key, info). central_view (with_state info (state_for s key info))) s.cameras

-- snapshotCameraInfos
unfoldable pub snapshot_camera_infos : Supervisor → List CameraInfo
snapshot_camera_infos s = map (λ (_, info). info) s.cameras
