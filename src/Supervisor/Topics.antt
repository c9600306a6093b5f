-- ===== src/Supervisor/Topics.antt =====
-- The topics of a camera, and the addresses that the handlers read from them.
use text.Mathlib.TextLemmas.{cons-append, nil-append}
use cam_bus.Base.{
  ℕ, ◌+◌, ◌≤◌, false, String, ◌<>◌, some, List, [], ◌∷◌, ◌++◌, length, length-append, ltb, ◌≡◌,
  refl, ap, ◌∙◌, arith,
}
use cam_bus.Base.Str.{split}
use cam_bus.Base.Str.Split.{Without, split-append, split-whole}
use cam_bus.Core.{CameraInfo, no_info}
use cam_bus.Supervisor.{Supervisor, camera_topic, uplink_status_topic}
use cam_bus.Supervisor.Uplinks.{address_of, address_in, drop_parts, last_part}

-- The names of the camera hold no slash.
pub record Slashless (i : CameraInfo) : Type 0 where
  pub tenant : Without b'/' i.tenant
  pub building : Without b'/' i.building
  pub floor : Without b'/' i.floor
  pub device_type : Without b'/' i.device_type
  pub device_id : Without b'/' i.device_id

-- what a topic says of a camera
abbrev pub named : CameraInfo → CameraInfo
named i = record no_info {
  tenant = i.tenant;
  building = i.building;
  floor = i.floor;
  device_type = i.device_type;
  device_id = i.device_id;
}

split-slash : (s t : String) → split b'/' (s <> ("/" <> t)) ≡ split b'/' s ++ split b'/' t
split-slash s t =
    ap (λ x. split b'/' (s <> x)) (cons-append "/" "" t ∙ ap (λ x. String.◌∷◌ "/" x) (nil-append t))
    ∙ split-append b'/' s "/" t refl

split-name : (s t : String) → Without b'/' s → split b'/' (s <> ("/" <> t)) ≡ s ∷ split b'/' t
split-name s t h = split-slash s t ∙ ap (λ l. l ++ split b'/' t) (split-whole b'/' s h)

split-camera_topic :
    (s : Supervisor) (i : CameraInfo) (rest : String)
    → Slashless i
    → split b'/' (camera_topic s i rest)
      ≡ split b'/' s.base_topic
        ++ (i.tenant ∷ (i.building ∷ (i.floor ∷ (i.device_type ∷ (i.device_id ∷ split b'/' rest)))))
unfolding camera_topic
split-camera_topic s i rest h =
    let t4 = i.device_id <> ("/" <> rest) in
    let t3 = i.device_type <> ("/" <> t4) in
    let t2 = i.floor <> ("/" <> t3) in
    let t1 = i.building <> ("/" <> t2) in
    rw
      (
        split-slash s.base_topic (i.tenant <> ("/" <> t1)),
        split-name i.tenant t1 h.tenant,
        split-name i.building t2 h.building,
        split-name i.floor t3 h.floor,
        split-name i.device_type t4 h.device_type,
        split-name i.device_id rest h.device_id,
      )
      refl

drop_parts-append : (ps qs : List String) → drop_parts (length ps) (ps ++ qs) ≡ qs
unfolding drop_parts
drop_parts-append [] [] = refl
drop_parts-append [] (_ ∷ _) = refl
drop_parts-append (p ∷ ps) qs = drop_parts-append ps qs

-- A topic with at least `extra` parts below the base topic, the five names of a camera first, none of
-- which holds a slash, is read as the address of the camera.
pub address_of-camera_topic :
    (extra : ℕ) (s : Supervisor) (i : CameraInfo) (rest p : String) (ps : List String)
    → Slashless i
    → split b'/' rest ≡ p ∷ ps
    → extra ≤ 5 + length (p ∷ ps)
    → address_of extra s.base_topic (camera_topic s i rest)
      ≡ some (record { camera = named i; action = last_part (p ∷ ps) })
unfolding address_of address_in
address_of-camera_topic extra s i rest p ps h cut enough =
    let base = split b'/' s.base_topic in
    let tail : List String =
      i.tenant ∷ (i.building ∷ (i.floor ∷ (i.device_type ∷ (i.device_id ∷ (p ∷ ps))))) in
    let short : ltb (length (base ++ tail)) (length base + extra) ≡ false =
      ground (arith, length-append base tail, enough) in
    rw (split-camera_topic s i rest h, cut, short, drop_parts-append base tail) refl

-- The topic on which an uplink's status is published is read as a `status` command for its camera.
pub address_of-uplink_status_topic :
    (s : Supervisor) (i : CameraInfo)
    → Slashless i
    → address_of 7 s.base_topic (uplink_status_topic s i)
      ≡ some (record { camera = named i; action = "status" })
unfolding uplink_status_topic last_part
address_of-uplink_status_topic s i h =
    address_of-camera_topic 7 s i "uplink/status" "uplink" ("status" ∷ []) h (unfold split in refl)
      (omega arith)
