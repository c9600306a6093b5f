-- ===== src/FaceEngine.antt =====
-- internal/faceengine/faceengine.go: the events of recognised faces.
pub mod Keeping
pub mod Evidence
use cam_bus.Base.{
  ℕ, Bool, String, Option, none, some, Result, ok, err, List, [], ◌∷◌, ◌==◌, ◌||◌, ◌≡◌, refl,
  if-rule, if◌then◌else◌,
}
use cam_bus.Base.Int.{ℤ}
use cam_bus.Base.Str.{trim_space, to_lower, contains}
use cam_bus.Base.Dict.{insert}
use cam_bus.Base.State.{St}
use cam_bus.Core.{AnalyticEvent, text, number, flag}

-- FaceEventDetail, as far as the engine reads it; a confidence is the text of its number.
pub record FaceEvent : Type 0 where
  pub id : String
  pub matched : Bool
  pub matched_card : Option ℤ
  pub confidence : String
  pub looks_like_conf : Option String

-- A face object of the database.
pub record FaceObject : Type 0 where
  pub source_photo : String
  pub thumbnail : String

-- What the engine uses: base64, the download of a snapshot's address (empty where it fails), and the
-- client of FindFace. A card is its name and the address of its photo, as the client reads them.
pub record Client (W : Type 0) : Type 0 where
  pub decode_base64 : String → Option (List ℕ)
  pub download : String → St W (List ℕ)
  pub create_face_event : List ℕ → St W (Result String (Option String))
  pub get_face_event : String → St W (Option FaceEvent)
  pub get_card : ℤ → St W (Option (String × String))
  pub get_face_object : ℤ → St W (Option FaceObject)

-- What the engine returns: an error, an event, or neither.
abbrev pub Answer : Type 0
Answer = Option String × Option AnalyticEvent

abbrev nothing : Answer
nothing = (none, none)

-- whether the engine handles events of this type
unfoldable pub is_face_type : String → Bool
is_face_type analytic =
    let at = to_lower (trim_space analytic) in at == "facecapture" || at == "facedetection"

-- the errors of FindFace that say that there is no face
unfoldable pub is_zero_faces : String → Bool
is_zero_faces e =
    contains e "Zero objects(type=\"face\")" || contains e "Zero objects(type=\\\"face\\\")"

abbrev bytes_of : Option (List ℕ) → List ℕ
bytes_of none = []
bytes_of (some bytes) = bytes

abbrev photo_of : Option FaceObject → String
photo_of none = ""
photo_of (some face) =
    if trim_space face.source_photo == ""
    then trim_space face.thumbnail
    else trim_space face.source_photo

abbrev name_of : Option (String × String) → String
name_of none = ""
name_of (some (name, _)) = name

abbrev card_photo : Option (String × String) → String
card_photo none = ""
card_photo (some (_, photo)) = photo

-- the event of a recognised face. The source writes its entries into the map that the event shares with
-- the one that it was given; nothing that is modelled reads that map again.
unfoldable pub recognized :
    AnalyticEvent → FaceEvent → ℤ → Option (String × String) → Option FaceObject → AnalyticEvent
recognized evt face card_id card object =
    let photo = if photo_of object == "" then card_photo card else photo_of object in
    let conf : String = elim face.looks_like_conf [ none ↦ face.confidence | some c ↦ c ] in
    let meta = insert "ff_confidence" (text conf) (
      insert "ff_person_name" (text (name_of card)) (
        insert "ff_card_id" (number card_id) (
          insert "ff_matched" (flag face.matched)
            (insert "ff_event_id" (text face.id) evt.meta)))) in
    record evt {
      analytic_type = "faceRecognized";
      meta = if photo == "" then meta else insert "ff_person_photo_url" (text photo) meta;
    }

module _ {W : Type 0} (c : Client W) where
  -- the bytes of the snapshot: those of the event, or those behind its address
  unfoldable pub snapshot_of : AnalyticEvent → W → List ℕ × W
  snapshot_of evt w =
      let own : List ℕ =
        if evt.snapshot_b64 == "" then [] else bytes_of (c.decode_base64 evt.snapshot_b64) in
      elim own [
        | b ∷ bs ↦ (b ∷ bs, w)
        | [] ↦ if evt.snapshot_url == "" then ([], w) else c.download evt.snapshot_url w
      ]

  matched_card_of : AnalyticEvent → FaceEvent → Option ℤ → W → Answer × W
  unfolding recognized
  matched_card_of evt face none w = (nothing, w)
  matched_card_of evt face (some card_id) w =
      let (card, w1) = c.get_card card_id w in
      let (object, w2) = c.get_face_object card_id w1 in
      ((none, some (recognized evt face card_id card object)), w2)

  of_face : AnalyticEvent → Option FaceEvent → W → Answer × W
  unfolding matched_card_of
  of_face evt none w = (nothing, w)
  of_face evt (some face) w =
      let card = matched_card_of evt face face.matched_card w in
      if face.matched then card else (nothing, w)

  of_created : AnalyticEvent → Result String (Option String) → W → Answer × W
  unfolding of_face
  of_created evt (err e) w = if is_zero_faces e then (nothing, w) else ((some e, none), w)
  of_created evt (ok none) w = (nothing, w)
  of_created evt (ok (some id)) w =
      let (face, w') = c.get_face_event id w in
      if trim_space id == "" then (nothing, w) else of_face evt face w'

  of_image : AnalyticEvent → List ℕ → W → Answer × W
  unfolding of_created
  of_image evt [] w = (nothing, w)
  of_image evt (b ∷ bs) w = let (r, w') = c.create_face_event (b ∷ bs) w in of_created evt r w'

  -- ProcessFaceCapture, of an engine that has a client
  unfoldable pub process_face_capture : AnalyticEvent → W → Answer × W
  unfolding of_image snapshot_of
  process_face_capture evt w =
      let (image, w') = snapshot_of evt w in
      if is_face_type evt.analytic_type then of_image evt image w' else (nothing, w)

  -- What a recognised face keeps of the event that it comes from.
  abbrev pub SameSource : AnalyticEvent → Option AnalyticEvent → Type 0
  SameSource evt none = Unit
  SameSource evt (some r) =
      (r.analytic_type ≡ "faceRecognized")
      × (r.tenant ≡ evt.tenant)
      × (r.building ≡ evt.building)
      × (r.floor ≡ evt.floor)
      × (r.device_type ≡ evt.device_type)
      × (r.device_id ≡ evt.device_id)
      × (r.timestamp ≡ evt.timestamp)
      × (r.event_id ≡ evt.event_id)
      × (r.snapshot_url ≡ evt.snapshot_url)

  abbrev Good : AnalyticEvent → Answer × W → Type 0
  Good evt r = SameSource evt r.0.1

  matched_card_of-Good :
      (evt : AnalyticEvent) (face : FaceEvent) (card : Option ℤ) (w : W)
      → Good evt (matched_card_of evt face card w)
  unfolding matched_card_of recognized
  matched_card_of-Good evt face none w = tt
  matched_card_of-Good evt face (some card) w =
      (refl, refl, refl, refl, refl, refl, refl, refl, refl)

  of_face-Good :
      (evt : AnalyticEvent) (face : Option FaceEvent) (w : W) → Good evt (of_face evt face w)
  unfolding of_face
  of_face-Good evt none w = tt
  of_face-Good evt (some face) w =
      if-rule (Good evt) face.matched (λ _. matched_card_of-Good evt face face.matched_card w)
        (λ _. tt)

  of_created-Good :
      (evt : AnalyticEvent) (r : Result String (Option String)) (w : W)
      → Good evt (of_created evt r w)
  unfolding of_created
  of_created-Good evt (err e) w = if-rule (Good evt) (is_zero_faces e) (λ _. tt) (λ _. tt)
  of_created-Good evt (ok none) w = tt
  of_created-Good evt (ok (some id)) w =
      if-rule (Good evt) (trim_space id == "") (λ _. tt) (λ _. of_face-Good evt _ _)

  of_image-Good : (evt : AnalyticEvent) (image : List ℕ) (w : W) → Good evt (of_image evt image w)
  unfolding of_image
  of_image-Good evt [] w = tt
  of_image-Good evt (b ∷ bs) w = of_created-Good evt _ _

  -- Whatever FindFace answers, an event that the face engine returns is of type `faceRecognized` and
  -- names the camera, the time, the id and the snapshot of the event that it was given.
  pub process_face_capture-SameSource :
      (evt : AnalyticEvent) (w : W) → SameSource evt (process_face_capture evt w).0.1
  unfolding process_face_capture
  process_face_capture-SameSource evt w =
      if-rule (Good evt) (is_face_type evt.analytic_type) (λ _. of_image-Good evt _ _) (λ _. tt)
