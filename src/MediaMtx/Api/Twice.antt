-- ===== src/MediaMtx/Api/Twice.antt =====
-- internal/mediamtx/config.go: `Sync` after `Sync`, through the file.
use mathlib.Core.List.{map}
use cam_bus.Base.{
  true, false, String, Option, none, some, Result, ok, List, [], ◌∷◌, ◌≡◌, ◌≢◌, ◌==◌, ◌&&◌, not,
  refl, ap, ◌∙◌, inl, inr, ◌⊎◌, Bool-cases, Option-cases, Result-cases, eq_iff, arith,
}
use cam_bus.Base.Int.{ℤ, is_positive}
use cam_bus.Base.State.{if_keeps}
use cam_bus.Core.{CameraInfo}
use cam_bus.MediaMtx.Config.{Config, AuthInternalUser, auth_users_for_api, base_config}
use cam_bus.MediaMtx.Generator.{Generator, Lib as BuildLib, build_config, start_config, add_cameras}
use cam_bus.MediaMtx.Sync.{
  ApiRequest, sync, write_and_apply, apply_changes, apply_config_via_api, plan, send_all,
}
use cam_bus.MediaMtx.Rebuilding.{build_config_idem}
use cam_bus.MediaMtx.Api.{
  Bytes, HttpRequest, Lib, System, do_json, read_existing_config, write_file, write_config,
  reload_via_signal, server, http_request,
}

-- The addresses of a user that are read from a file: an empty list is left out of it, and read as nil.
abbrev kept_ips : Option (List String) → Option (List String)
kept_ips none = none
kept_ips (some []) = none
kept_ips (some (ip ∷ ips)) = some (ip ∷ ips)

abbrev reread_user : AuthInternalUser → AuthInternalUser
reread_user u = record u { ips = kept_ips u.ips }

-- What is read from the file of a configuration.
abbrev pub reread : Config → Config
reread cfg = record cfg { auth_internal_users = map reread_user cfg.auth_internal_users }

abbrev with_users : List AuthInternalUser → Config → Config
with_users us cfg = record cfg { auth_internal_users = us }

abbrev first_ips : List AuthInternalUser → Option (List String)
first_ips [] = none
first_ips (u ∷ us) = u.ips

kept_ips-Nonempty : (ips : Option (List String)) → kept_ips ips ≢ some []
kept_ips-Nonempty none e = cc
kept_ips-Nonempty (some []) e = cc
kept_ips-Nonempty (some (ip ∷ ips)) e = cc

reread-Nonempty : (us : List AuthInternalUser) → first_ips (map reread_user us) ≢ some []
reread-Nonempty [] e = cc
reread-Nonempty (u ∷ us) e = kept_ips-Nonempty u.ips e

module _ (lib : BuildLib) (g : Generator) where
  start_config-with_users :
      (g.api_user == "" && g.api_pass == "") ≡ true
      → (cfg : Config) (us : List AuthInternalUser)
      → start_config lib g (some (with_users us cfg))
        ≡ with_users us (start_config lib g (some cfg))
  unfolding start_config
  start_config-with_users anonymous cfg us = elim (Bool-cases g.preserve_defaults) [
    | inl on ↦ rw (on, start_config, anonymous) refl
    | inr off ↦ rw (off, start_config, anonymous) refl
  ]

  built_users :
      (g.api_user == "" && g.api_pass == "") ≡ false
      → (old : Config) (cameras : List CameraInfo)
      → first_ips (build_config lib g (some old) cameras).auth_internal_users ≡ some []
  unfolding build_config start_config base_config auth_users_for_api
  built_users user old cameras = elim (Bool-cases g.preserve_defaults) [
    | inl on ↦ rw (on, start_config, user) refl
    | inr off ↦ rw (off, start_config, user) refl
  ]

  -- What was built and read again is built again.
  rebuild_reread :
      (g.api_user == "" && g.api_pass == "") ≡ true
      → (existing : Option Config) (cameras : List CameraInfo)
      → let cfg = build_config lib g existing cameras in
        build_config lib g (some (reread cfg)) cameras ≡ reread cfg
  unfolding build_config
  rebuild_reread anonymous existing cameras =
      let cfg = build_config lib g existing cameras in
      let us = map reread_user cfg.auth_internal_users in
      ap (λ (c : Config). record c { paths = add_cameras lib g cameras [] })
        (start_config-with_users anonymous cfg us)
      ∙ ap (with_users us) (build_config_idem lib g existing cameras)

module _ {Url W : Type 0} (lib : Lib Url) (sys : System W) (g : Generator)
    (content : W → Option Bytes) where
  -- `content` is what the generator's file holds: reading it shows that and changes nothing, writing it
  -- sets it, and no other call changes it.
  pub record IsFile : Type 0 where
    pub read : (w : W) → sys.read_file g.path w ≡ (ok (content w), w)
    pub written :
        (bytes : Bytes) (w : W)
        → (sys.write_file g.path bytes w).0 ≡ none
        → content (sys.write_file g.path bytes w).1 ≡ some bytes
    pub send : (req : HttpRequest) (w : W) → content (sys.send req w).1 ≡ content w
    pub find : (pid : ℤ) (w : W) → content (sys.find_process pid w).1 ≡ content w
    pub signal : (pid : ℤ) (w : W) → content (sys.signal_hup pid w).1 ≡ content w

  module _ (file : IsFile) where
    do_json_keeps : (req : ApiRequest) (w : W) → content (do_json lib g sys req w).1 ≡ content w
    unfolding do_json
    do_json_keeps req w = elim (Result-cases (http_request lib g req)) [
      | inl (http, made) ↦ rw (made, do_json) (file.send http w)
      | inr (e, refused) ↦ rw (refused, do_json) refl
    ]

    send_all_keeps :
        (reqs : List ApiRequest) (w : W)
        → content (send_all (server lib g sys) reqs w).1 ≡ content w
    unfolding send_all server
    send_all_keeps [] w = refl
    send_all_keeps (req ∷ reqs) w = elim (Option-cases (do_json lib g sys req w).0) [
      | inl done ↦ rw (done, send_all) (send_all_keeps reqs _ ∙ do_json_keeps req w)
      | inr (e, failed) ↦ rw (failed, send_all) (do_json_keeps req w)
    ]

    reload_keeps : (pid : ℤ) (w : W) → content (reload_via_signal lib g sys pid w).1 ≡ content w
    unfolding reload_via_signal
    reload_keeps pid w = elim (Option-cases (sys.find_process pid w).0) [
      | inl found ↦ rw (found, reload_via_signal) (file.signal pid _ ∙ file.find pid w)
      | inr (e, missing) ↦ rw (missing, reload_via_signal) (file.find pid w)
    ]

    apply_changes_keeps :
        (existing desired : Config) (w : W)
        → content (apply_changes (server lib g sys) g existing desired w).1 ≡ content w
    unfolding apply_changes apply_config_via_api server
    apply_changes_keeps existing desired w =
        let P : W → Type 0 = λ v. content v ≡ content w in
        if_keeps P (not (g.api_base_url == "")) _ _ (λ _. send_all_keeps (plan existing desired) w)
          (λ _.
            if_keeps P (is_positive g.reload_pid) _ _ (λ _. reload_keeps g.reload_pid w)
              (λ _. refl))

    write_file_content :
        (bytes : Bytes) (w : W)
        → (write_file lib g sys bytes w).0 ≡ none
        → content (write_file lib g sys bytes w).1 ≡ some bytes
    unfolding write_file
    write_file_content bytes w done =
        let w₁ = (sys.mkdir_all (lib.dir g.path) w).1 in
        elim (Option-cases (sys.mkdir_all (lib.dir g.path) w).0) [
          | inr (e, failed) ↦ let clash = rw (failed, write_file) at done in cc
          | inl made ↦ elim (Option-cases (sys.write_file g.path bytes w₁).0) [
            | inl written ↦ rw (made, write_file) (file.written bytes w₁ written)
            | inr (e, failed) ↦ let clash = rw (made, write_file, failed) at done in cc
          ]
        ]

    write_config_content :
        (cfg : Config) (w : W)
        → (write_config lib g sys cfg w).0 ≡ none
        → (bytes : Bytes) × (lib.encode_config cfg ≡ ok bytes)
          × (content (write_config lib g sys cfg w).1 ≡ some bytes)
    unfolding write_config
    write_config_content cfg w = elim (Result-cases (lib.encode_config cfg)) [
      | inl (bytes, encoded) ↦
          rw (encoded, write_config) (λ done. (bytes, refl, write_file_content bytes w done))
      | inr (e, failed) ↦ rw (failed, write_config) (λ done. cc)
    ]

    -- The configuration in the file, if there is one.
    abbrev pub decoded : Option Bytes → Option Config
    decoded none = none
    decoded (some bytes) = lib.decode_config bytes

    read_content : (w : W) → read_existing_config lib g sys w ≡ (ok (decoded (content w)), w)
    unfolding read_existing_config
    read_content w = elim (Option-cases (content w)) [
      | inl empty ↦
          rw (file.read w, read_existing_config, empty)
            (ap (λ (r : Result String (Option Bytes) × W). (ok none, r.1)) (file.read w))
      | inr (bytes, full) ↦
          rw (file.read w, read_existing_config, full)
            (ap (λ (r : Result String (Option Bytes) × W). (ok (lib.decode_config bytes), r.1))
              (file.read w))
    ]

    module _ (build : BuildLib) (no_config : Config) (cameras : List CameraInfo)
        (has_path : g.path ≢ "") where
      abbrev synced : W → Option String × W
      synced = sync (server lib g sys) build no_config g cameras

      abbrev built : W → Config
      built w = build_config build g (decoded (content w)) cameras

      -- `Sync` where the file holds what it would write.
      sync_idle :
          (cfg : Config) (w : W)
          → lib.same cfg cfg ≡ true
          → decoded (content w) ≡ some cfg
          → build_config build g (some cfg) cameras ≡ cfg
          → synced w ≡ (none, w)
      unfolding sync server
      sync_idle cfg w equal held rebuilt =
          let here : (g.path == "") ≡ false = ground (arith, eq_iff g.path "") in
          rw (here, read_content w, sync, held, rebuilt, equal) refl

      -- `Sync` either does nothing, or writes and applies.
      sync-cases :
          (w : W)
          → (synced w ≡ (none, w))
            ⊎ ((old : Config) × (synced w ≡ write_and_apply (server lib g sys) g old (built w) w))
      unfolding sync server
      sync-cases w =
          let here : (g.path == "") ≡ false = ground (arith, eq_iff g.path "") in
          elim (Option-cases (decoded (content w))) [
            | inl fresh ↦ inr (no_config, rw (here, read_content w, sync, fresh) refl)
            | inr (old, held) ↦
                elim (Bool-cases (lib.same old (build_config build g (some old) cameras))) [
                  | inl equal ↦ inl (rw (here, read_content w, sync, held, equal) refl)
                  | inr other ↦ inr (old, rw (here, read_content w, sync, held, other) refl)
                ]
          ]

      write_and_apply_content :
          (old cfg : Config) (w : W)
          → (write_config lib g sys cfg w).0 ≡ none
          → (bytes : Bytes) × (lib.encode_config cfg ≡ ok bytes)
            × (content (write_and_apply (server lib g sys) g old cfg w).1 ≡ some bytes)
      unfolding write_and_apply server
      write_and_apply_content old cfg w written =
          let (bytes, encoded, there) = write_config_content cfg w written in
          let w₁ = (write_config lib g sys cfg w).1 in
          (bytes, encoded, rw (written, write_and_apply) (apply_changes_keeps old cfg w₁ ∙ there))

      -- For a generator with a path and without the API's credentials: where the configuration of the
      -- cameras can be written, `Sync` twice is `Sync` once. The second call reads the file and does
      -- nothing, whatever the first returned: also where the server refused the configuration. The file
      -- behaves as a file, yaml reads what it wrote, but for empty addresses, and DeepEqual is
      -- reflexive.
      pub sync_twice :
          (w : W)
          → ((bytes : Bytes)
              → lib.encode_config (built w) ≡ ok bytes
              → lib.decode_config bytes ≡ some (reread (built w)))
          → ((cfg : Config) → lib.same cfg cfg ≡ true)
          → (g.api_user == "" && g.api_pass == "") ≡ true
          → (write_config lib g sys (built w) w).0 ≡ none
          → let w' = (synced w).1 in synced w' ≡ (none, w')
      sync_twice w yaml same_refl anonymous written = elim (sync-cases w) [
        | inl idle ↦ rw idle idle
        | inr (old, wrote) ↦
            let (bytes, encoded, there) = write_and_apply_content old (built w) w written in
            rw wrote (
              sync_idle (reread (built w)) _ (same_refl _) (ap decoded there ∙ yaml bytes encoded)
                (rebuild_reread build g anonymous (decoded (content w)) cameras))
      ]

      -- For a generator with a path and with the API's credentials: whenever the file holds what is read
      -- of a configuration that was written, `Sync` writes and applies its configuration, also where
      -- nothing has changed. The file behaves as a file, and only what is equal is DeepEqual.
      pub sync_never_idle :
          ((a b : Config) → lib.same a b ≡ true → a ≡ b)
          → (g.api_user == "" && g.api_pass == "") ≡ false
          → (old : Config) (w : W) → decoded (content w) ≡ some (reread old)
          → synced w ≡ write_and_apply (server lib g sys) g (reread old) (built w) w
      unfolding sync server
      sync_never_idle deep_equal user old w held =
          let cfg = build_config build g (some (reread old)) cameras in
          let here : (g.path == "") ≡ false = ground (arith, eq_iff g.path "") in
          elim (Bool-cases (lib.same (reread old) cfg)) [
            | inr other ↦ rw (here, read_content w, sync, held, other) refl
            | inl equal ↦
                let users =
                  ap (λ (c : Config). first_ips c.auth_internal_users) (deep_equal _ _ equal) in
                absurd (
                  reread-Nonempty old.auth_internal_users
                    (users ∙ built_users build g user (reread old) cameras))
          ]
