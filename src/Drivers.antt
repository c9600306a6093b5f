-- ===== src/Drivers.antt =====
-- internal/drivers/base.go: the registry of drivers and what drivers report.
pub mod Camera
pub mod Digest
pub mod Snapshots
pub mod Rounds
pub mod Keeping
pub mod Ending
pub mod Hikvision
pub mod Dahua
use Prim.Native.Char.{code}
use Prim.Native.Nat.{◌-◌}
use Prim.Native.String.{char_at}
use cam_bus.Base.{
  String, ◌<>◌, Option, none, some, ◌||◌, ◌&&◌, leb, if◌then◌else◌, ◌≡◌, ◌≢◌, refl, arith, eq_iff,
}
use cam_bus.Base.Str.{is_char}
use cam_bus.Base.Dict.{Dict, lookup, insert, lookup-insert}
use cam_bus.Core.{CameraInfo}

-- ConnectionState
pub data ConnectionState : Type 0 where
  connecting online offline not_established : ConnectionState

-- StatusUpdate
pub record StatusUpdate : Type 0 where
  pub state : ConnectionState
  pub reason : String

-- normalize
unfoldable pub normalize : String → String
normalize String.[] = ""
normalize (String.◌∷◌ c s) =
    let rest = normalize s in
    if is_char b' ' c || is_char b'-' c || is_char b'_' c
    then rest
    else if leb b'A' (code c) && leb (code c) b'Z'
    then String.◌∷◌ (char_at "abcdefghijklmnopqrstuvwxyz" (code c - b'A')) rest
    else String.◌∷◌ c rest

-- keyFor
unfoldable pub key_for : CameraInfo → String
unfolding normalize
key_for info = normalize info.manufacturer <> ":" <> normalize info.model

module _ {D : Type 0} where
  -- RegisterDriver
  unfoldable pub register_driver : String → String → D → Dict D → Dict D
  unfolding normalize
  register_driver manufacturer model f registry =
      insert (normalize manufacturer <> ":" <> normalize model) f registry

  -- GetDriver: the factory that is called; `none` is ErrDriverNotFound
  unfoldable pub get_driver : Dict D → CameraInfo → Option D
  unfolding key_for
  get_driver registry info = elim (lookup (key_for info) registry) [
    | some f ↦ some f
    | none ↦ lookup (normalize info.manufacturer <> ":any") registry
  ]

  get_driver_found :
      (registry : Dict D) (info : CameraInfo) (f : D)
      → lookup (key_for info) registry ≡ some f
      → get_driver registry info ≡ some f
  unfolding get_driver
  get_driver_found registry info f found = rw (found, get_driver) refl

  -- A camera gets the driver that was registered last under its key. A registration under a key that
  -- is neither the camera's nor the fallback of its manufacturer changes nothing for it.
  get_driver-register_driver :
      (manufacturer model : String) (f : D) (registry : Dict D) (info : CameraInfo)
      → let key = normalize manufacturer <> ":" <> normalize model in
        let after = register_driver manufacturer model f registry in
        (key ≡ key_for info → get_driver after info ≡ some f)
        × (key ≢ key_for info
            → key ≢ normalize info.manufacturer <> ":any"
            → get_driver after info ≡ get_driver registry info)
  unfolding register_driver get_driver
  get_driver-register_driver manufacturer model f registry info =
      let key = normalize manufacturer <> ":" <> normalize model in
      let any_key = normalize info.manufacturer <> ":any" in
      (
        (λ same. get_driver_found (register_driver manufacturer model f registry) info f (
            ground
              (arith, eq_iff key (key_for info), lookup-insert key (key_for info) f registry))),
        (λ other other_any. ground (
          arith,
          eq_iff key (key_for info),
          eq_iff key any_key,
          lookup-insert key (key_for info) f registry,
          lookup-insert key any_key f registry,
        )),
      )
