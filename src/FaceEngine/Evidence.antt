-- ===== src/FaceEngine/Evidence.antt =====
-- internal/faceengine/faceengine.go: what FindFace must have answered for a face to be recognised.
use mathlib.Core.Option.{none-ne-some, some-injective}
use cam_bus.Base.{
  ℕ, true, String, Option, none, some, Result, ok, err, List, [], ◌∷◌, ◌==◌, ◌≡◌, ◌≢◌, refl, sym,
  if-rule, eq_iff, arith,
}
use cam_bus.Base.Int.{ℤ}
use cam_bus.Base.Str.{trim_space}
use cam_bus.Core.{AnalyticEvent}
use cam_bus.FaceEngine.{
  FaceEvent, Client, Answer, recognized, is_face_type, is_zero_faces, snapshot_of, matched_card_of,
  of_face, of_created, of_image, process_face_capture,
}

module _ {W : Type 0} (c : Client W) (evt r : AnalyticEvent) where
  -- the event is made of the card that the face matched
  abbrev pub FromCard : FaceEvent → W → Type 0
  FromCard face w =
      (card_id : ℤ) × (face.matched_card ≡ some card_id)
      × (let (card, w') = c.get_card card_id w in
          r ≡ recognized evt face card_id card (c.get_face_object card_id w').0)

  -- the event is made of a face that FindFace has found and matched
  abbrev pub FromFace : Option FaceEvent → W → Type 0
  FromFace found w =
      (face : FaceEvent) × (found ≡ some face) × (face.matched ≡ true) × FromCard face w

  -- the event is made of what FindFace has created
  abbrev pub FromCreated : Result String (Option String) → W → Type 0
  FromCreated created w =
      (id : String) × (created ≡ ok (some id))
      × (trim_space id ≢ "")
      × (let (found, w') = c.get_face_event id w in FromFace found w')

  -- the event is made of what FindFace has created for the image
  abbrev pub FromImage : List ℕ → W → Type 0
  FromImage image w =
      (image ≢ []) × (let (created, w') = c.create_face_event image w in FromCreated created w')

  abbrev Returned : Answer × W → Type 0
  Returned a = a.0.1 ≡ some r

  matched_card_of-FromCard :
      (face : FaceEvent) (w : W)
      → Returned (matched_card_of c evt face face.matched_card w)
      → FromCard face w
  unfolding matched_card_of
  matched_card_of-FromCard face w =
      elim face.matched_card
        as (λ card.
          Returned (matched_card_of c evt face card w)
          → (card_id : ℤ) × (card ≡ some card_id)
            × (let (card, w') = c.get_card card_id w in
                r ≡ recognized evt face card_id card (c.get_face_object card_id w').0)) [
                  | none ↦ λ e. absurd (none-ne-some r e)
                  | some card_id ↦ λ e. (card_id, refl, sym (some-injective _ _ e))
                ]

  of_face-FromFace :
      (found : Option FaceEvent) (w : W) → Returned (of_face c evt found w) → FromFace found w
  unfolding of_face
  of_face-FromFace none w = λ e. absurd (none-ne-some r e)
  of_face-FromFace (some face) w =
      if-rule (λ a. Returned a → FromFace (some face) w) face.matched
        (λ matched e. (face, refl, matched, matched_card_of-FromCard face w e))
        (λ _ e. absurd (none-ne-some r e))

  of_created-FromCreated :
      (created : Result String (Option String)) (w : W)
      → Returned (of_created c evt created w)
      → FromCreated created w
  unfolding of_created
  of_created-FromCreated (err m) w =
      if-rule (λ a. Returned a → FromCreated (err m) w) (is_zero_faces m)
        (λ _ e. absurd (none-ne-some r e)) (λ _ e. absurd (none-ne-some r e))
  of_created-FromCreated (ok none) w = λ e. absurd (none-ne-some r e)
  of_created-FromCreated (ok (some id)) w =
      let (found, w') = c.get_face_event id w in
      if-rule (λ a. Returned a → FromCreated (ok (some id)) w) (trim_space id == "")
        (λ _ e. absurd (none-ne-some r e))
        (λ given e. (
          id,
          refl,
          (λ blank. ground (arith, given, eq_iff (trim_space id) "", blank)),
          of_face-FromFace found w' e,
        ))

  of_image-FromImage :
      (image : List ℕ) (w : W) → Returned (of_image c evt image w) → FromImage image w
  unfolding of_image
  of_image-FromImage [] w e = absurd (none-ne-some r e)
  of_image-FromImage (b ∷ bs) w e =
      let (created, w') = c.create_face_event (b ∷ bs) w in
      ((λ empty. cc), of_created-FromCreated created w' e)

  -- An event is returned only for an event of a type of faces, whose snapshot is not empty, and for
  -- which FindFace, asked in this order, has created a face event with an id that is not blank, and has
  -- answered for this id with a face that it says is matched and that names a card; the event is the
  -- one that was given with the data of this face, of this card and of the card's face object, if they
  -- are found.
  pub process_face_capture-FromImage :
      (w : W)
      → (process_face_capture c evt w).0.1 ≡ some r
      → (is_face_type evt.analytic_type ≡ true)
        × (let (image, w') = snapshot_of c evt w in FromImage image w')
  unfolding process_face_capture
  process_face_capture-FromImage w =
      let (image, w') = snapshot_of c evt w in
      if-rule (λ a. Returned a → (is_face_type evt.analytic_type ≡ true) × FromImage image w')
        (is_face_type evt.analytic_type) (λ face e. (face, of_image-FromImage image w' e))
        (λ _ e. absurd (none-ne-some r e))
