-- ===== src/MediaMtx/Sync.antt =====
-- internal/mediamtx/config.go: how a configuration is written and brought to the server.
use cam_bus.Base.{
  Bool, true, false, String, ◌<>◌, Option, none, some, Result, ok, err, List, [], ◌∷◌, ◌++◌, ◌==◌,
  not, if◌then◌else◌,
}
use cam_bus.Base.Int.{ℤ, is_positive}
use cam_bus.Base.Dict.{Dict, lookup}
use cam_bus.Base.State.{St}
use cam_bus.Core.{CameraInfo}
use cam_bus.MediaMtx.Config.{Config, PathConfig, PathDefaults, AuthInternalUser}
use cam_bus.MediaMtx.Generator.{Generator, Lib, build_config}

-- GlobalPatch
pub record GlobalPatch : Type 0 where
  pub rtsp_address : String
  pub hls : Bool
  pub webrtc : Bool
  pub api : Bool
  pub api_address : String
  pub auth_internal_users : List AuthInternalUser

-- A request of `applyConfigViaAPI`: its payload, and the path that it is about.
pub data ApiRequest : Type 0 where
  patch_global : GlobalPatch → ApiRequest
  patch_defaults : PathDefaults → ApiRequest
  delete_path : String → ApiRequest
  replace_path add_path : String → PathConfig → ApiRequest

-- A request's method and endpoint; `path_escape` is url.PathEscape.
unfoldable pub endpoint_of : (String → String) → ApiRequest → String × String
endpoint_of path_escape (patch_global _) = ("PATCH", "v3/config/global/patch")
endpoint_of path_escape (patch_defaults _) = ("PATCH", "v3/config/pathdefaults/patch")
endpoint_of path_escape (delete_path name) =
    ("DELETE", "v3/config/paths/delete/" <> path_escape name)
endpoint_of path_escape (replace_path name _) =
    ("POST", "v3/config/paths/replace/" <> path_escape name)
endpoint_of path_escape (add_path name _) = ("POST", "v3/config/paths/add/" <> path_escape name)

unfoldable pub global_patch : Config → GlobalPatch
global_patch cfg = record {
  rtsp_address = cfg.rtsp_address;
  hls = cfg.hls;
  webrtc = cfg.webrtc;
  api = cfg.api;
  api_address = cfg.api_address;
  auth_internal_users = cfg.auth_internal_users;
}

abbrev pub is_some {ℓ} : {A : Type ℓ} → Option A → Bool
is_some none = false
is_some (some _) = true

-- the deletions of the paths that are not wanted
unfoldable pub deletions : Dict PathConfig → Dict PathConfig → List ApiRequest
deletions [] desired = []
deletions ((name, _) ∷ more) desired =
    let rest = deletions more desired in
    if is_some (lookup name desired) then rest else delete_path name ∷ rest

-- the paths that are wanted
unfoldable pub settings : Dict PathConfig → Dict PathConfig → List ApiRequest
settings existing [] = []
settings existing ((name, cfg) ∷ more) =
    let rest = settings existing more in
    (if is_some (lookup name existing) then replace_path name cfg else add_path name cfg) ∷ rest

-- the requests of `applyConfigViaAPI`, in order
unfoldable pub plan : Config → Config → List ApiRequest
unfolding deletions settings global_patch
plan existing desired =
    patch_global (global_patch desired)
    ∷ (patch_defaults desired.path_defaults
        ∷ (deletions existing.paths desired.paths ++ settings existing.paths desired.paths))

-- the message of the error of one request
unfoldable pub request_error : (String → String) → ApiRequest → String → String
request_error quote (patch_global _) e = "patch mediamtx global config: " <> e
request_error quote (patch_defaults _) e = "patch mediamtx path defaults: " <> e
request_error quote (delete_path name) e = "delete mediamtx path " <> quote name <> ": " <> e
request_error quote (replace_path name _) e = "apply mediamtx path " <> quote name <> ": " <> e
request_error quote (add_path name _) e = "apply mediamtx path " <> quote name <> ": " <> e

-- The file, the server's API and the process. `read_config` has decoded the YAML: `none` is a file that
-- does not exist or is no configuration. `do_json` is `doJSON` of a request. `same` is reflect.DeepEqual.
pub record Server (W : Type 0) : Type 0 where
  pub read_config : St W (Result String (Option Config))
  pub write_config : Config → St W (Option String)
  pub do_json : ApiRequest → St W (Option String)
  pub signal : ℤ → St W (Option String)
  pub same : Config → Config → Bool
  pub quote : String → String

module _ {W : Type 0} (srv : Server W) where
  -- the requests one after another, up to the first error
  unfoldable pub send_all : List ApiRequest → W → Option String × W
  unfolding request_error
  send_all [] w = (none, w)
  send_all (req ∷ reqs) w =
      let (r, w') = srv.do_json req w in
      let rest = send_all reqs w' in
      elim r [ none ↦ rest | some e ↦ (some (request_error srv.quote req e), w') ]

  -- applyConfigViaAPI
  unfoldable pub apply_config_via_api : Config → Config → W → Option String × W
  unfolding send_all plan
  apply_config_via_api existing desired = send_all (plan existing desired)

  -- applyChanges
  unfoldable pub apply_changes : Generator → Config → Config → W → Option String × W
  apply_changes g existing desired w =
      if not (g.api_base_url == "")
      then apply_config_via_api existing desired w
      else if is_positive g.reload_pid
      then srv.signal g.reload_pid w
      else (some "mediamtx reload not configured", w)

  abbrev same_as : Option Config → Config → Bool
  same_as none cfg = false
  same_as (some old) cfg = srv.same old cfg

  abbrev paths_of : Config → Option Config → Config
  paths_of zero none = zero
  paths_of zero (some old) = old

  -- what follows where the configuration is a new one
  unfoldable pub write_and_apply : Generator → Config → Config → W → Option String × W
  unfolding apply_changes
  write_and_apply g existing cfg w =
      let (r, w') = srv.write_config cfg w in
      let applied = apply_changes g existing cfg w' in
      elim r [ none ↦ applied | some e ↦ (some e, w') ]

  -- Sync, from what the file holds on. `no_config` is the zero value of the configuration.
  unfoldable pub sync_from :
      Lib
      → Config
      → Generator
      → List CameraInfo
      → Result String (Option Config)
      → W
      → Option String × W
  unfolding write_and_apply build_config
  sync_from lib no_config g cameras (err e) w = (some e, w)
  sync_from lib no_config g cameras (ok existing) w =
      let cfg = build_config lib g existing cameras in
      if same_as existing cfg
      then (none, w)
      else write_and_apply g (paths_of no_config existing) cfg w

  -- Sync
  unfoldable pub sync : Lib → Config → Generator → List CameraInfo → W → Option String × W
  unfolding sync_from
  sync lib no_config g cameras w =
      if g.path == ""
      then (none, w)
      else (let (r, w') = srv.read_config w in sync_from lib no_config g cameras r w')
