-- ===== src/MediaMtx/Rebuilding.antt =====
-- The configuration that is built again.
use cam_bus.Base.{
  true, false, String, Option, none, some, ok, List, [], ◌∷◌, ◌≡◌, ◌≢◌, refl, ap, arith,
  Option-cases, Bool-cases, inl, inr, ◌==◌, ◌&&◌, eq_iff,
}
use cam_bus.Base.Int.{pos}
use cam_bus.Base.Dict.{Dict, NodupKeys, insert, insert-NodupKeys}
use cam_bus.Core.{CameraInfo}
use cam_bus.MediaMtx.Config.{Config, PathConfig, base_config, format_duration}
use cam_bus.MediaMtx.Generator.{
  Generator, Lib, build_config, start_config, add_cameras, add_entry, entry_for,
}
use cam_bus.MediaMtx.Sync.{Server, sync}

module _ (lib : Lib) (g : Generator) where
  add_cameras-NodupKeys :
      (cameras : List CameraInfo) (paths : Dict PathConfig)
      → NodupKeys paths
      → NodupKeys (add_cameras lib g cameras paths)
  unfolding add_cameras add_entry
  add_cameras-NodupKeys [] paths u = u
  add_cameras-NodupKeys (info ∷ infos) paths u = elim (Option-cases (entry_for lib g info)) [
    | inl nothing ↦ rw (nothing, add_cameras) (add_cameras-NodupKeys infos paths u)
    | inr ((path, cfg), entry) ↦
        rw (entry, add_cameras)
          (add_cameras-NodupKeys infos (insert path cfg paths) (insert-NodupKeys path cfg paths u))
  ]

  -- No path stands twice in a configuration that is built.
  pub build_config-NodupKeys :
      (existing : Option Config) (cameras : List CameraInfo)
      → NodupKeys (build_config lib g existing cameras).paths
  unfolding build_config
  build_config-NodupKeys existing cameras = add_cameras-NodupKeys cameras [] tt

  abbrev format : String
  format = format_duration lib.duration_string (pos g.record_delete_after)

  preserved_idem :
      g.preserve_defaults ≡ true
      → (old : Config) (paths : Dict PathConfig)
      → start_config lib g (some (record (start_config lib g (some old)) { paths = paths }))
        ≡ start_config lib g (some old)
  unfolding start_config
  preserved_idem on old paths =
      let anonymous_or_user = Bool-cases (g.api_user == "" && g.api_pass == "") in
      elim (Bool-cases (old.path_defaults.record_delete_after == "")) [
        | inr there ↦ elim anonymous_or_user [
          | inl anonymous ↦ rw (on, start_config, there, anonymous, there) refl
          | inr user ↦ rw (on, start_config, there, user, there) refl
        ]
        | inl unset ↦ elim (Bool-cases (format == "")) [
          | inl blank ↦ elim anonymous_or_user [
            | inl anonymous ↦ rw (on, start_config, anonymous, unset, blank) refl
            | inr user ↦ rw (on, start_config, user, unset, blank) refl
          ]
          | inr filled ↦ elim anonymous_or_user [
            | inl anonymous ↦ rw (on, start_config, anonymous, unset, filled) refl
            | inr user ↦ rw (on, start_config, user, unset, filled) refl
          ]
        ]
      ]

  start_config_idem :
      (existing : Option Config) (paths : Dict PathConfig)
      → start_config lib g (some (record (start_config lib g existing) { paths = paths }))
        ≡ start_config lib g existing
  unfolding start_config base_config
  start_config_idem none paths = elim (Bool-cases (g.api_user == "" && g.api_pass == "")) [
    | inl anonymous ↦ elim (Bool-cases g.preserve_defaults) [
      | inr off ↦ rw (off, start_config, anonymous) refl
      | inl on ↦ elim (Bool-cases (format == "")) [
        | inl blank ↦ rw (on, start_config, anonymous, blank) refl
        | inr filled ↦ rw (on, start_config, anonymous, filled) refl
      ]
    ]
    | inr user ↦ elim (Bool-cases g.preserve_defaults) [
      | inr off ↦ rw (off, start_config, user) refl
      | inl on ↦ elim (Bool-cases (format == "")) [
        | inl blank ↦ rw (on, start_config, user, blank) refl
        | inr filled ↦ rw (on, start_config, user, filled) refl
      ]
    ]
  ]
  start_config_idem (some old) paths = elim (Bool-cases g.preserve_defaults) [
    | inr off ↦ elim (Bool-cases (g.api_user == "" && g.api_pass == "")) [
      | inl anonymous ↦ rw (off, start_config, anonymous) refl
      | inr user ↦ rw (off, start_config, user) refl
    ]
    | inl on ↦ preserved_idem on old paths
  ]

  -- Building again over a configuration that was built for the same cameras changes nothing.
  pub build_config_idem :
      (existing : Option Config) (cameras : List CameraInfo)
      → build_config lib g (some (build_config lib g existing cameras)) cameras
        ≡ build_config lib g existing cameras
  unfolding build_config
  build_config_idem none cameras =
      ap (λ (c : Config). record c { paths = add_cameras lib g cameras [] })
        (start_config_idem none (add_cameras lib g cameras []))
  build_config_idem (some old) cameras =
      ap (λ (c : Config). record c { paths = add_cameras lib g cameras [] })
        (start_config_idem (some old) (add_cameras lib g cameras []))

module _ {W : Type 0} (srv : Server W) (lib : Lib) (no_config : Config) (g : Generator) where
  -- Once the file of a generator with a path holds what a `Sync` of the cameras has built, another
  -- `Sync` of the same cameras reads the file and does nothing else, also where the server never got
  -- that configuration: `same` is DeepEqual, which holds of a configuration and itself.
  sync_again :
      (existing : Option Config) (cameras : List CameraInfo) (w w' : W)
      → ((cfg : Config) → srv.same cfg cfg ≡ true)
      → g.path ≢ ""
      → srv.read_config w ≡ (ok (some (build_config lib g existing cameras)), w')
      → sync srv lib no_config g cameras w ≡ (none, w')
  unfolding sync
  sync_again existing cameras w w' same path written =
      let cfg = build_config lib g existing cameras in
      let here : (g.path == "") ≡ false = ground (arith, eq_iff g.path "") in
      rw (here, written, sync, build_config_idem lib g existing cameras, same cfg) refl
