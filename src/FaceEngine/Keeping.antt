-- ===== src/FaceEngine/Keeping.antt =====
-- internal/faceengine/faceengine.go: what the engine keeps of the world.
use cam_bus.Base.{
  ℕ, String, Option, none, some, Result, ok, err, List, [], ◌∷◌, ◌==◌, if◌then◌else◌,
}
use cam_bus.Base.Int.{ℤ}
use cam_bus.Base.State.{if_keeps}
use cam_bus.Base.Str.{trim_space}
use cam_bus.Core.{AnalyticEvent}
use cam_bus.FaceEngine.{
  FaceEvent, Client, is_face_type, is_zero_faces, snapshot_of, matched_card_of, of_face, of_created,
  of_image, process_face_capture,
}

module _ {κ} {W : Type 0} (P : W → Type κ) (c : Client W) where
  -- Every call of the client keeps `P`.
  pub record ClientKeeps : Type κ where
    pub download : (url : String) (w : W) → P w → P (c.download url w).1
    pub create_face_event : (image : List ℕ) (w : W) → P w → P (c.create_face_event image w).1
    pub get_face_event : (id : String) (w : W) → P w → P (c.get_face_event id w).1
    pub get_card : (id : ℤ) (w : W) → P w → P (c.get_card id w).1
    pub get_face_object : (id : ℤ) (w : W) → P w → P (c.get_face_object id w).1

  module _ (k : ClientKeeps) where
    own_or_download_keeps :
        (evt : AnalyticEvent) (own : List ℕ) (w : W)
        → P w
        → P
            (elim own as (λ _. List ℕ × W) [
              | b ∷ bs ↦ (b ∷ bs, w)
              | [] ↦ if evt.snapshot_url == "" then ([], w) else c.download evt.snapshot_url w
            ]).1
    own_or_download_keeps evt [] w p =
        if_keeps P (evt.snapshot_url == "") _ _ (λ _. p) (λ _. k.download evt.snapshot_url w p)
    own_or_download_keeps evt (b ∷ bs) w p = p

    snapshot_of_keeps : (evt : AnalyticEvent) (w : W) → P w → P (snapshot_of c evt w).1
    unfolding snapshot_of
    snapshot_of_keeps evt w p = own_or_download_keeps evt _ w p

    matched_card_of_keeps :
        (evt : AnalyticEvent) (face : FaceEvent) (card : Option ℤ) (w : W)
        → P w
        → P (matched_card_of c evt face card w).1
    unfolding matched_card_of
    matched_card_of_keeps evt face none w p = p
    matched_card_of_keeps evt face (some id) w p = k.get_face_object id _ (k.get_card id w p)

    of_face_keeps :
        (evt : AnalyticEvent) (face : Option FaceEvent) (w : W) → P w → P (of_face c evt face w).1
    unfolding of_face
    of_face_keeps evt none w p = p
    of_face_keeps evt (some face) w p =
        if_keeps P face.matched _ _ (λ _. matched_card_of_keeps evt face face.matched_card w p)
          (λ _. p)

    of_created_keeps :
        (evt : AnalyticEvent) (r : Result String (Option String)) (w : W)
        → P w
        → P (of_created c evt r w).1
    unfolding of_created
    of_created_keeps evt (err e) w p = if_keeps P (is_zero_faces e) _ _ (λ _. p) (λ _. p)
    of_created_keeps evt (ok none) w p = p
    of_created_keeps evt (ok (some id)) w p =
        if_keeps P (trim_space id == "") _ _ (λ _. p)
          (λ _. of_face_keeps evt _ _ (k.get_face_event id w p))

    of_image_keeps :
        (evt : AnalyticEvent) (image : List ℕ) (w : W) → P w → P (of_image c evt image w).1
    unfolding of_image
    of_image_keeps evt [] w p = p
    of_image_keeps evt (b ∷ bs) w p = of_created_keeps evt _ _ (k.create_face_event (b ∷ bs) w p)

    pub process_face_capture_keeps :
        (evt : AnalyticEvent) (w : W) → P w → P (process_face_capture c evt w).1
    unfolding process_face_capture
    process_face_capture_keeps evt w p =
        if_keeps P (is_face_type evt.analytic_type) _ _
          (λ _. of_image_keeps evt _ _ (snapshot_of_keeps evt w p)) (λ _. p)
