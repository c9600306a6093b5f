-- ===== src/Uplink/Container/Interface.antt =====
-- What the uplink manager uses of the containers, and the docker implementation of it.
use cam_bus.Base.{String, Option, Result, ok, ◌≡◌, ◌≢◌}
use cam_bus.Base.State.{St}
use cam_bus.Uplink.Srt.Query.{UrlLib}
use cam_bus.Uplink.Container.Args.{Request, Manager}
use cam_bus.Uplink.Container.Logs.{Failure}
use cam_bus.Uplink.Container.Docker.{System}
use cam_bus.Uplink.Container.Start.{Status, start, stop, inspect_status}
use cam_bus.Uplink.Container.Start.Laws.{start_has_identity}

pub record Containers (W : Type 0) : Type 0 where
  pub start : Request → St W (Result Failure String)
  pub stop : String → St W (Option Failure)
  pub inspect_status : String → St W (Result Failure Status)
  -- a container that was started has an identity
  pub start_has_identity : (req : Request) (w : W) {id : String} → (start req w).0 ≡ ok id → id ≢ ""

module _ {W : Type 0} (sys : System W) (url : UrlLib) (quote : String → String) (m : Manager) where
  abbrev pub docker_containers : Containers W
  docker_containers = record {
    start = start sys url quote m;
    stop = stop sys url quote m;
    inspect_status = inspect_status sys url quote m;
    start_has_identity = start_has_identity sys url quote m;
  }
