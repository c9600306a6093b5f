-- ===== src/Supervisor/Commands.antt =====
-- internal/supervisor/supervisor.go: which uplink a command is about.
use cam_bus.Base.{
  String, none, ok, ◌≡◌, ◌≢◌, refl, arith, eq_iff, false, some, ◌∙◌, ap, if◌then◌else◌,
}
use cam_bus.Base.Str.{to_lower, equal_fold}
use cam_bus.Base.Dict.{lookup}
use cam_bus.Core.{CameraInfo}
use cam_bus.Uplink.Path.{central_path_for}
use cam_bus.Uplink.Request.{Request, normalize, apply_defaults, validate}
use cam_bus.Uplink.Request
use cam_bus.Uplink.Manager.{Manager, Status, resolve_request}
use cam_bus.Uplink.Manager.Operations.{status_for}
use cam_bus.Supervisor.{
  Supervisor, key_for, uplink_status_topic, record_uplink_status, clear_uplink_state,
}
use cam_bus.Supervisor.Services.{Services, Message, status, publish_logged, refresh}
use cam_bus.Supervisor.Uplinks.{
  Address, command_request, handle_uplink_status, find_camera_info, is_final,
}
use cam_bus.Supervisor.Handlers.{
  handle_uplink_message, request_received, command_received, command_status, fill_status, or_last,
}
use cam_bus.Supervisor.Topics.{Slashless, named, address_of-uplink_status_topic}

-- a report of the camera's uplink as a message, on the topic that the supervisor subscribes to
abbrev pub report : Supervisor → CameraInfo → Status → Message
report s i st = record { topic = uplink_status_topic s i; retained = false; payload = status st }

abbrev pub command : CameraInfo → String → Address
command camera action = record { camera = camera; action = action }

-- A request that names a camera and no path, sent as a start, is about the uplink of the camera's
-- default central path, where it has one, and sent as a stop about the uplink of the camera's id.
pub command_request-keys :
    (m : Manager) (camera : CameraInfo) (given : Request)
    → (normalize given).camera_id ≢ ""
    → (normalize given).proxy_path ≡ ""
    → (normalize given).central_path ≡ ""
    → central_path_for camera ≢ ""
    → (Request.key_for (resolve_request m (command_request (command camera "start") given))
        ≡ central_path_for camera)
      × (Request.key_for (resolve_request m (command_request (command camera "stop") given))
          ≡ (normalize given).camera_id)
unfolding command_request resolve_request apply_defaults Request.key_for equal_fold to_lower
command_request-keys m camera given id no_proxy no_central path =
    let r = normalize given in
    (
      ground (
        arith,
        eq_iff r.camera_id "",
        eq_iff r.proxy_path "",
        eq_iff r.central_path "",
        eq_iff (central_path_for camera) "",
      ),
      ground (arith, eq_iff r.camera_id "", eq_iff r.proxy_path "", eq_iff r.central_path ""),
    )

status_request_valid :
    (m : Manager) (i : CameraInfo) (given : Request)
    → i.device_id ≢ ""
    → validate (resolve_request m (command_request (command (named i) "status") given)) ≡ none
unfolding validate command_request resolve_request apply_defaults equal_fold to_lower
status_request_valid m i given id =
    ground (arith, eq_iff (normalize given).camera_id "", eq_iff i.device_id "")

-- the request that a supervisor reads from its own report about the camera
abbrev pub echoed : Manager → CameraInfo → Request → Request
echoed m i given = resolve_request m (command_request (command (named i) "status") given)

module _ {W : Type 0} (sv : Services W) where
  command_status-again :
      (m : Manager) (camera : CameraInfo) (req : Request) (sw : Supervisor × W) {last : Status}
      → or_last (status_for m req) (lookup (key_for camera) sw.0.uplink_status) ≡ some last
      → command_status sv camera req (m, sw)
        ≡ (m, handle_uplink_status sv (fill_status req last) sw)
  unfolding command_status
  command_status-again m camera req sw reported = rw (reported, command_status) refl

  handle_uplink_status-again :
      (st : Status) (s : Supervisor) (w : W) (i : CameraInfo)
      → find_camera_info st s.cameras ≡ some i
      → handle_uplink_status sv st (s, w) ≡ (
          let s' = record_uplink_status s (key_for i) st in
          let w' = publish_logged sv (report s i st) w in
          if is_final st then refresh sv (clear_uplink_state s' (key_for i), w') else (s', w'))
  unfolding handle_uplink_status
  handle_uplink_status-again st s w i found = rw (found, handle_uplink_status) refl

  -- When the broker returns the supervisor's own report of an uplink, to whose topic the supervisor
  -- subscribes, the supervisor publishes a report on the same topic again, and records it. The report
  -- is the one that the manager gives for the request in the payload, or else the last one that was
  -- recorded for the camera, its empty names filled in from the request; where it is final, the
  -- uplink's state is cleared after that and MediaMTX is told. This holds if the payload reads as a
  -- request, the camera has an id and names without slashes, there is such a report, and the camera is
  -- the one that is found for it.
  pub handle_uplink_message-echo :
      (m : Manager) (s : Supervisor) (w : W) (i : CameraInfo) (payload : String) (given : Request)
      {last : Status}
      → Slashless i
      → i.device_id ≢ ""
      → sv.parse_request payload ≡ ok given
      → let req = echoed m i given in
        or_last (status_for m req) (lookup (key_for i) s.uplink_status) ≡ some last
        → let st = fill_status req last in
          find_camera_info st s.cameras ≡ some i
          → handle_uplink_message sv (uplink_status_topic s i) payload (m, (s, w)) ≡ (
              let s' = record_uplink_status s (key_for i) st in
              let w' = publish_logged sv (report s i st) w in
              (
                m,
                if is_final st
                    then refresh sv (clear_uplink_state s' (key_for i), w')
                    else (s', w'),
              ))
  unfolding handle_uplink_message request_received command_received key_for to_lower
  handle_uplink_message-echo m s w i payload given {last} names id parsed reported found =
      let req = echoed m i given in
      rw
        (
          address_of-uplink_status_topic s i names,
          handle_uplink_message,
          parsed,
          request_received,
          status_request_valid m i given id,
        )
        (command_status-again m (named i) req (s, w) reported
          ∙ ap (λ sw. (m, sw)) (handle_uplink_status-again (fill_status req last) s w i found))
