-- ===== src/Supervisor/Services.antt =====
-- What the supervisor uses of the broker, the drivers, the engines and the MediaMTX generators.
use cam_bus.Base.{ℕ, Bool, String, Option, none, some, Result, List}
use cam_bus.Base.State.{St}
use cam_bus.Core.{CameraInfo, AnalyticEvent}
use cam_bus.Uplink.Request.{Request}
use cam_bus.Uplink.Manager.{Status}
use cam_bus.Uplink.Srt.Query.{UrlLib}
use cam_bus.Uplink.Container.Interface.{Containers}
use cam_bus.Uplink.Env.{Env}
use cam_bus.Engines.{Manager}
use cam_bus.Supervisor.{Supervisor}
use cam_bus.Supervisor.Snapshots.{snapshot_for_proxy, snapshot_for_central}

-- A value of a JSON object that the supervisor builds; `measured` is a figure of the process.
mutual
  pub data Json : Type 0 where
    str : String → Json
    num : ℕ → Json
    flag : Bool → Json
    texts : List String → Json
    time : ℕ → Json
    measured : String → Json
    object : Fields → Json

  pub data Fields : Type 0 where
    no_fields : Fields
    field : String → Json → Fields → Fields

-- What is published; the supervisor marshals it with `encoding/json`.
pub data Payload : Type 0 where
  config : Json → Payload
  status : Status → Payload
  event : AnalyticEvent → Payload

-- A message that the supervisor hands to the broker, always at quality of service 1.
pub record Message : Type 0 where
  pub topic : String
  pub retained : Bool
  pub payload : Payload

-- A driver, after `GetDriver`. `active_analytics` is empty where it is no `AnalyticsReporter`.
pub record Driver : Type 0 where
  pub active_analytics : List String

pub record Services (W : Type 0) : Type 0 where
  -- (*mqttclient.Client).Publish
  pub publish : Message → St W (Option String)
  -- (*mediamtx.Generator).Sync of the two generators, whose error is only logged
  pub sync_proxy : Option (List CameraInfo → W → W)
  pub sync_central : Option (List CameraInfo → W → W)
  -- json.Unmarshal of a camera's information and of an uplink request
  pub parse_info : String → Result String CameraInfo
  pub parse_request : String → Result String Request
  pub get_driver : CameraInfo → Option Driver
  -- the goroutines of a worker start, and its context is cancelled
  pub start_worker : String → CameraInfo → W → W
  pub cancel_worker : String → W → W
  pub engines : Manager W
  -- what the uplink manager uses
  pub containers : Containers W
  pub env : Env
  pub url : UrlLib
  pub quote : String → String

module _ {W : Type 0} (sv : Services W) where
  abbrev sync : Option (List CameraInfo → W → W) → List CameraInfo → W → W
  sync none infos w = w
  sync (some f) infos w = f infos w

  -- refreshMediaMTXConfig
  unfoldable pub refresh : Supervisor × W → Supervisor × W
  refresh (s, w) = (
    s,
    sync sv.sync_central (snapshot_for_central s) (sync sv.sync_proxy (snapshot_for_proxy s) w),
  )

  -- a call of the broker whose error is only logged
  unfoldable pub publish_logged : Message → W → W
  publish_logged message w = (sv.publish message w).1
