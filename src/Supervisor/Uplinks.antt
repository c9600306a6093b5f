-- ===== src/Supervisor/Uplinks.antt =====
-- internal/supervisor/supervisor.go: the uplinks of the cameras, what the uplink manager reports of
-- them, and the uplink commands.
use cam_bus.Base.{
  ℕ, zero, suc, ◌+◌, Bool, false, String, Option, none, some, List, [], ◌∷◌, ◌==◌, ◌&&◌, ◌||◌, not,
  ltb, length, if◌then◌else◌,
}
use cam_bus.Base.Str.{trim_slashes, equal_fold, split}
use cam_bus.Base.Dict.{Dict}
use cam_bus.Core.{CameraInfo, no_info}
use cam_bus.Uplink.Path.{central_path_for}
use cam_bus.Uplink.Request.{Request, normalize}
use cam_bus.Uplink.Manager.{Status, Outside}
use cam_bus.Uplink.Container.Interface.{Containers}
use cam_bus.Supervisor.{
  Supervisor, key_for, uplink_status_topic, record_uplink_status, clear_uplink_state,
  normalize_uplink_match,
}
use cam_bus.Supervisor.Services.{Services, Message, status, refresh, publish_logged}

-- the tests of the loop of `findCameraInfoForUplinkStatus`
unfoldable pub camera_is_of : Status → CameraInfo → Bool
camera_is_of st info =
    let central = normalize_uplink_match st.central_path in
    not (st.camera_id == "") && equal_fold info.device_id st.camera_id
    || not (central == "") && normalize_uplink_match info.central_path == central

-- findCameraInfoForUplinkStatus
unfoldable pub find_camera_info : Status → Dict CameraInfo → Option CameraInfo
unfolding camera_is_of
find_camera_info st [] = none
find_camera_info st ((_, info) ∷ more) =
    if camera_is_of st info then some info else find_camera_info st more

-- The five names in a topic below the base topic, and its last part.
pub record Address : Type 0 where
  pub camera : CameraInfo
  pub action : String

unfoldable pub last_part : List String → String
last_part [] = ""
last_part (p ∷ []) = p
last_part (_ ∷ (q ∷ ps)) = last_part (q ∷ ps)

unfoldable pub drop_parts : ℕ → List String → List String
drop_parts n [] = []
drop_parts zero (p ∷ ps) = p ∷ ps
drop_parts (suc n) (_ ∷ ps) = drop_parts n ps

unfoldable pub address_in : List String → Option Address
unfolding last_part
address_in (tenant ∷ (building ∷ (floor ∷ (kind ∷ (id ∷ (p ∷ ps)))))) = some (record {
  camera = record no_info {
    tenant = tenant;
    building = building;
    floor = floor;
    device_type = kind;
    device_id = id;
  };
  action = last_part (p ∷ ps);
})
address_in _ = none

-- The start of both handlers: a topic with `extra` parts or more below the base topic.
unfoldable pub address_of : ℕ → String → String → Option Address
unfolding drop_parts address_in
address_of extra base topic =
    let parts = split b'/' topic in
    let base_parts = length (split b'/' base) in
    if ltb (length parts) (base_parts + extra)
    then none
    else address_in (drop_parts base_parts parts)

-- the request of a command, before the manager's defaults
unfoldable pub command_request : Address → Request → Request
command_request a given =
    let req = normalize given in
    let id =
      if equal_fold a.action "status" && req.camera_id == ""
      then a.camera.device_id
      else req.camera_id in
    let path =
      if equal_fold a.action "start" && req.central_path == ""
      then (if req.proxy_path == "" then central_path_for a.camera else trim_slashes req.proxy_path)
      else req.central_path in
    record req { camera_id = id; central_path = path }

abbrev pub is_final : Status → Bool
is_final st = st.state == "stopped" || st.state == "error"

module _ {W : Type 0} (sv : Services W) where
  status_message : Supervisor → CameraInfo → Status → Message
  status_message s info st = record {
    topic = uplink_status_topic s info;
    retained = false;
    payload = status st;
  }

  -- handleUplinkStatus
  unfoldable pub handle_uplink_status : Status → Supervisor × W → Supervisor × W
  unfolding find_camera_info status_message
  handle_uplink_status st (s, w) = elim (find_camera_info st s.cameras) [
    | none ↦ (s, w)
    | some info ↦
        let s' = record_uplink_status s (key_for info) st in
        let w' = publish_logged sv (status_message s info st) w in
        if is_final st then refresh sv (clear_uplink_state s' (key_for info), w') else (s', w')
  ]

  abbrev below {ℓ} : {A : Type ℓ} → (W → A × W) → Supervisor × W → A × (Supervisor × W)
  below f (s, w) = let (a, w') = f w in (a, (s, w'))

  -- The containers of a world that the supervisor belongs to.
  abbrev containers_below : Containers (Supervisor × W)
  containers_below = record {
    start = λ req. below (sv.containers.start req);
    stop = λ name. below (sv.containers.stop name);
    inspect_status = λ name. below (sv.containers.inspect_status name);
    start_has_identity = λ req (s, w) e. sv.containers.start_has_identity req w e;
  }

  -- The outside of the supervisor's uplink manager: its status hook is `handleUplinkStatus`.
  abbrev pub outside : Outside (Supervisor × W)
  outside = record {
    containers = containers_below;
    hook = handle_uplink_status;
    env = sv.env;
    url = sv.url;
    quote = sv.quote;
  }
