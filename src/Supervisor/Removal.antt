-- ===== src/Supervisor/Removal.antt =====
-- internal/supervisor/supervisor.go: what is left of a camera that is removed or disabled.
use cam_bus.Base.{
  ℕ, true, false, String, none, some, ok, ◌≡◌, refl, sym, ◌∙◌, ap, arith, if-rule, Option-cases,
  inl, inr, ◌⊎◌, if◌then◌else◌, ◌||◌, ◌==◌, eq_refl, eq_iff,
}
use mathlib.Core.Path.{subst}
use cam_bus.Base.Str.{trim_space}
use cam_bus.Base.Dict.{Dict, lookup, lookup-erase}
use cam_bus.Core.{CameraInfo}
use cam_bus.Uplink.Manager.{Manager}
use cam_bus.Uplink.Manager.Operations.Worlds.{stop_by_camera_keeps}
use cam_bus.Supervisor.{Supervisor, key_for, clear_uplink_state, remove_camera_info}
use cam_bus.Supervisor.Services.{Services, refresh}
use cam_bus.Supervisor.Workers.{stop_camera}
use cam_bus.Supervisor.Uplinks.{Address, address_of, outside}
use cam_bus.Supervisor.Handlers.{
  App, named_info, central_defaults, recording, clean_info, cleanup_camera, info_received,
  handle_info_message,
}
use cam_bus.Supervisor.Held.{Held, held, outside-Keeps}
use cam_bus.Supervisor.Soundness.{SoundApp, forgotten-Sound}

abbrev pub WithoutKey {ℓ} : {V : Type ℓ} → String → Dict V → Dict V → Type ℓ
WithoutKey key d d' = (k : String) → lookup k d' ≡ (if key == k then none else lookup k d)

-- The camera, its worker and its uplink's state are gone, and every other camera and worker is there
-- as before.
pub record Removed (key : String) (s s' : Supervisor) : Type 0 where
  pub cameras : WithoutKey key s.cameras s'.cameras
  pub workers : WithoutKey key s.workers s'.workers
  pub no_state : lookup key s'.uplink_states ≡ none

module _ {W : Type 0} (sv : Services W) where
  stop_camera-workers :
      (s : Supervisor) (key : String) (w : W)
      → WithoutKey key s.workers (stop_camera sv s key w).0.workers
  unfolding stop_camera
  stop_camera-workers s key w k = elim (Option-cases (lookup key s.workers)) [
    | inl idle ↦ rw (idle, stop_camera) (ground (arith, eq_iff key k, idle))
    | inr (worker, found) ↦ rw (found, stop_camera) (lookup-erase key k s.workers)
  ]

  stop_camera-cameras :
      (s : Supervisor) (key : String) (w : W) → (stop_camera sv s key w).0.cameras ≡ s.cameras
  unfolding stop_camera
  stop_camera-cameras s key w = elim (Option-cases (lookup key s.workers)) [
    | inl idle ↦ rw (idle, stop_camera) refl
    | inr (worker, found) ↦ rw (found, stop_camera) refl
  ]

  pub cleanup_camera-Removed :
      (base : String) (info : CameraInfo) (a : App W)
      → SoundApp base a
      → Removed (key_for info) a.1.0 (cleanup_camera sv info a).1.0
  unfolding cleanup_camera refresh clear_uplink_state remove_camera_info
  cleanup_camera-Removed base info (m, (s, w)) v =
      let key = key_for info in
      let (s1, w1) = stop_camera sv s key w in
      let s2 = clear_uplink_state (remove_camera_info s1 key) key in
      let h =
        stop_by_camera_keeps (outside sv) (λ (t : Supervisor × W). Held base s2 t.0)
          (outside-Keeps sv) m info (s2, w1) (held (forgotten-Sound sv s key w v)) in
      record {
        cameras = λ k.
            ap (lookup k) h.same_cameras
            ∙ lookup-erase key k s1.cameras
            ∙ ap (λ d. if key == k then none else lookup k d) (stop_camera-cameras s key w);
        workers = λ k. ap (lookup k) h.same_workers ∙ stop_camera-workers s key w k;
        no_state =
            h.no_new_state key (ground (arith, lookup-erase key key s1.uplink_states, eq_refl key));
      }

  -- The message asks for the removal: its payload is empty or `null`, or it says that the camera is
  -- not enabled.
  abbrev pub AsksRemoval : String → Type 0
  AsksRemoval payload =
      ((trim_space payload == "" || trim_space payload == "null") ≡ true)
      ⊎ ((given : CameraInfo) × (sv.parse_info payload ≡ ok given) × (given.enabled ≡ false))

  clean_info-key :
      (m : Manager) (address given : CameraInfo)
      → key_for (clean_info m address given) ≡ key_for address
  unfolding clean_info named_info central_defaults recording key_for
  clean_info-key m address given =
      if-rule (λ i. key_for (recording i) ≡ key_for address) _ (λ _. refl) (λ _. refl)

  clean_info-enabled :
      (m : Manager) (address given : CameraInfo)
      → (clean_info m address given).enabled ≡ given.enabled
  unfolding clean_info named_info central_defaults recording
  clean_info-enabled m address given =
      if-rule (λ (i : CameraInfo). i.enabled ≡ given.enabled) _ (λ _. refl) (λ _. refl)

  -- In a sound state, an information message for a camera that asks for its removal removes the camera,
  -- its worker and its uplink's state, and no other camera or worker.
  pub handle_info_message-removes :
      (base topic payload : String) (now : ℕ) (at : Address) (a : App W)
      → SoundApp base a
      → address_of 6 a.1.0.base_topic topic ≡ some at
      → AsksRemoval payload
      → Removed (key_for at.camera) a.1.0 (handle_info_message sv topic payload now a).1.0
  unfolding handle_info_message info_received
  handle_info_message-removes base topic payload now at a v found asks =
      rw (found, handle_info_message)
        (if-rule (λ (r : App W). Removed (key_for at.camera) a.1.0 r.1.0)
          (trim_space payload == "" || trim_space payload == "null")
          (λ _. cleanup_camera-Removed base at.camera a v)
          λ full. elim asks [
            | inl blank ↦ let off : true ≡ false = sym blank ∙ full in cc
            | inr (given, parsed, off) ↦
                let info = clean_info a.0 at.camera given in
                let key_same = clean_info-key a.0 at.camera given in
                rw parsed (
                  if-rule (λ (r : App W). Removed (key_for at.camera) a.1.0 r.1.0) info.enabled
                    (λ on.
                      let clash : true ≡ false =
                        sym on ∙ clean_info-enabled a.0 at.camera given ∙ off in
                      cc)
                    (λ _.
                      subst (λ key. Removed key a.1.0 (cleanup_camera sv info a).1.0) key_same
                        (cleanup_camera-Removed base info a v)))
          ])
