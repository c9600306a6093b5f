-- ===== src/Router/Publishing.antt =====
-- cmd/face-router/main.go: what the program publishes, with the engines that it loads.
use mathlib.Core.List.{map}
use cam_bus.Base.{
  false, String, Option, none, some, Result, ok, err, List, [], ◌∷◌, All, All-append, ◌≡◌, refl, ap,
  if-rule, ◌==◌, ◌||◌,
}
use cam_bus.Base.State.{St}
use cam_bus.Base.Str.{to_lower}
use cam_bus.Core.{AnalyticEvent}
use cam_bus.Uplink.Env.{Env}
use cam_bus.Engines.{
  Engine, keep_derived, process_each, process_all, enabled_engines, some_enabled, engine_named,
  engine_names, load_from_env, new_manager, find_face_engine, find_face_outcome, plate_stub,
}
use cam_bus.FaceEngine.{
  Client, SameSource, process_face_capture, process_face_capture-SameSource, is_face_type,
}
use cam_bus.FaceEngine.Keeping.{ClientKeeps, process_face_capture_keeps}
use cam_bus.Supervisor.Services.{Message, event}
use cam_bus.Router.{out_topic, derived_message, publish_each, handle_message}

-- The engine of FindFace, over the face engine with a client.
abbrev pub find_face : {W : Type 0} → Client W → Engine W
find_face c = find_face_engine (process_face_capture c)

-- A message of a recognised face: not retained, without its snapshot, under the topic of recognised
-- faces of the device that sent the event.
abbrev pub Recognized : String → AnalyticEvent → Message → Type 0
Recognized base_topic evt message =
    (d : AnalyticEvent) × (message.payload ≡ event d)
    × (d.analytic_type ≡ "faceRecognized")
    × (d.snapshot_b64 ≡ "")
    × (message.topic ≡ out_topic base_topic evt "faceRecognized")
    × (message.retained ≡ false)

abbrev IsRecognition : AnalyticEvent → Type 0
IsRecognition d = d.analytic_type ≡ "faceRecognized"

recognized_outcome :
    {W : Type 0} (c : Client W) (evt : AnalyticEvent) (r : Option String × Option AnalyticEvent)
    → SameSource c evt r.1
    → All IsRecognition (keep_derived (find_face_outcome r))
recognized_outcome c evt (some e, d) h = tt
recognized_outcome c evt (none, none) h = tt
recognized_outcome c evt (none, some d) h = (h.0, tt)

module _ {κ} {W : Type 0} (P : W → Type κ) where
  -- The engine keeps `P` and returns recognised faces.
  abbrev EngineGood : Engine W → Type κ
  EngineGood e =
      (evt : AnalyticEvent) (w : W)
      → P w
      → All IsRecognition (keep_derived (e.process evt w).0) × P (e.process evt w).1

  process_each-Good :
      (es : List (Engine W)) (evt : AnalyticEvent) (w : W)
      → All EngineGood es
      → P w
      → All IsRecognition (process_each es evt w).0 × P (process_each es evt w).1
  unfolding process_each
  process_each-Good [] evt w _ p = (tt, p)
  process_each-Good (e ∷ es) evt w (good, goods) p =
      if-rule (λ (r : List AnalyticEvent × W). All IsRecognition r.0 × P r.1) e.enabled
        (λ _.
          let (own, p') = good evt w p in
          let (rest, p'') = process_each-Good es evt (e.process evt w).1 goods p' in
          (All-append IsRecognition _ _ own rest, p''))
        (λ _. process_each-Good es evt w goods p)

  abbrev OptionGood : Option (Engine W) → Type κ
  OptionGood none = Unit
  OptionGood (some e) = EngineGood e

  enabled-Good :
      (es : List (Option (Engine W))) → All OptionGood es → All EngineGood (enabled_engines es)
  unfolding enabled_engines some_enabled
  enabled-Good [] _ = tt
  enabled-Good (none ∷ es) (_, goods) = enabled-Good es goods
  enabled-Good (some e ∷ es) (good, goods) =
      if-rule (All EngineGood) e.enabled (λ _. (good, enabled-Good es goods))
        (λ _. enabled-Good es goods)

  module _ (c : Client W) (client : ClientKeeps P c) where
    find_face-Good : EngineGood (find_face c)
    unfolding find_face_engine
    find_face-Good evt w p = (
      recognized_outcome c evt _ (process_face_capture-SameSource c evt w),
      process_face_capture_keeps P c client evt w p,
    )

    named-Good : (n : String) → OptionGood (engine_named (some (find_face c)) n)
    unfolding engine_named plate_stub
    named-Good n =
        if-rule OptionGood (to_lower n == "findface") (λ _. find_face-Good)
          (λ _.
            if-rule OptionGood
              (to_lower n == "plater" || to_lower n == "plate" || to_lower n == "lpr")
              (λ _ evt w p. (tt, p)) (λ _. tt))

    named_each-Good :
        (ns : List String) → All OptionGood (map (engine_named (some (find_face c))) ns)
    named_each-Good [] = tt
    named_each-Good (n ∷ ns) = (named-Good n, named_each-Good ns)

    module _ (publish : Message → St W (Option String)) (base_topic : String) where
      publish_each_keeps :
          (evt : AnalyticEvent) (ds : List AnalyticEvent) (w : W)
          → ((message : Message) (w : W)
              → Recognized base_topic evt message
              → P w
              → P (publish message w).1)
          → All IsRecognition ds
          → P w
          → P (publish_each publish base_topic evt ds w)
      unfolding publish_each derived_message
      publish_each_keeps evt [] w keeps _ p = p
      publish_each_keeps evt (d ∷ ds) w keeps (is, all) p = publish_each_keeps evt ds _ keeps all (
          keeps _ w
            (record d { snapshot_b64 = "" }, refl, is, refl, ap (out_topic base_topic evt) is, refl)
            p)

      -- Whatever message comes, and whatever engines the environment names: the program publishes nothing
      -- but recognised faces, under the topic `faceRecognized` of the device whose event it read, each
      -- without its snapshot and not retained. What such messages and the calls of FindFace keep of the world,
      -- `handleMessage` keeps.
      pub handle_message_keeps :
          (env : Env) (payload : Result String AnalyticEvent) (w : W)
          → ((evt : AnalyticEvent) (message : Message) (w : W)
              → payload ≡ ok evt
              → Recognized base_topic evt message
              → P w
              → P (publish message w).1)
          → P w
          → P (handle_message publish base_topic (load_from_env (some (find_face c)) env) payload w)
      unfolding handle_message load_from_env new_manager process_all enabled_engines
      handle_message_keeps env (err e) w keeps p = p
      handle_message_keeps env (ok evt) w keeps p =
          let engines =
            enabled_engines (map (engine_named (some (find_face c))) (engine_names env)) in
          let (recognitions, p') =
            process_each-Good engines evt w (enabled-Good _ (named_each-Good (engine_names env)))
              p in
          if-rule P (is_face_type evt.analytic_type)
            (λ _.
              publish_each_keeps evt (process_each engines evt w).0 _ (λ m w. keeps evt m w refl)
                recognitions p')
            (λ _. p)
