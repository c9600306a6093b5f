-- ===== src/FindFace/Engine.antt =====
-- internal/faceengine/faceengine.go: the face engine over the client of FindFace.
use cam_bus.Base.{ℕ, String, Option, none, some, Result, ok, err, List}
use cam_bus.Base.State.{St}
use cam_bus.Core.{AnalyticEvent}
use cam_bus.FaceEngine as Face
use cam_bus.FaceEngine.{process_face_capture}
use cam_bus.FaceEngine.Keeping.{ClientKeeps, process_face_capture_keeps}
use cam_bus.FindFace.{
  Client, FaceEvent, Card, FaceObject, CreateFaceEventResponse, get_card_name, get_card_photo_url,
}
use cam_bus.FindFace.Calls.{
  Lib, Http, create_face_event_from_bytes, get_face_event, get_card, get_face_object_for_card,
}
use cam_bus.FindFace.Tokens.{KeepsCalls, calls_keep}

-- what the engine reads of an answer; an error is only logged
abbrev created_id : Result String CreateFaceEventResponse → Result String (Option String)
created_id (err e) = err e
created_id (ok r) = ok (some r.event_id)

abbrev event_of : Result String FaceEvent → Option Face.FaceEvent
event_of (err _) = none
event_of (ok e) = some (record {
  id = e.id;
  matched = e.matched;
  matched_card = e.matched_card;
  confidence = e.confidence;
  looks_like_conf = e.looks_like_conf;
})

abbrev card_of : Client → Result String Card → Option (String × String)
card_of c (err _) = none
card_of c (ok card) = some (get_card_name c (some card), get_card_photo_url (some card))

abbrev object_of : Result String (Option FaceObject) → Option Face.FaceObject
object_of (err _) = none
object_of (ok none) = none
object_of (ok (some o)) = some (record { source_photo = o.source_photo; thumbnail = o.thumbnail })

module _ {W : Type 0} (lib : Lib) (http : Http W) (c : Client)
    (decode_base64 : String → Option (List ℕ)) (download : String → St W (List ℕ)) where
  -- The face engine's calls of the client.
  unfoldable pub engine_client : Face.Client W
  engine_client = record {
    decode_base64 = decode_base64;
    download = download;
    create_face_event = λ image w.
        let (r, w') = create_face_event_from_bytes lib http c image "snapshot.jpg" w in
        (created_id r, w');
    get_face_event = λ id w. let (r, w') = get_face_event lib http c id w in (event_of r, w');
    get_card = λ id w. let (r, w') = get_card lib http c id w in (card_of c r, w');
    get_face_object =
        λ id w. let (r, w') = get_face_object_for_card lib http c id w in (object_of r, w');
  }

  module _ {κ} (P : W → Type κ) (k : KeepsCalls P http c)
      (download_keeps : (url : String) (w : W) → P w → P (download url w).1) where
    engine_client_keeps : ClientKeeps P engine_client
    unfolding engine_client
    engine_client_keeps = record {
      download = download_keeps;
      create_face_event = λ image w p. (calls_keep P http c lib k w p).0 image "snapshot.jpg";
      get_face_event = λ id w p. (calls_keep P http c lib k w p).2 id;
      get_card = λ id w p. (calls_keep P http c lib k w p).3 id;
      get_face_object = λ id w p. (calls_keep P http c lib k w p).4 id;
    }

    -- Whatever event it gets and whatever FindFace answers, the face engine over the client of FindFace
    -- sends nothing but requests with the client's token, beside the download of a snapshot: what these
    -- keep of the world, `ProcessFaceCapture` keeps.
    pub engine_keeps :
        (evt : AnalyticEvent) (w : W) → P w → P (process_face_capture engine_client evt w).1
    engine_keeps = process_face_capture_keeps P engine_client engine_client_keeps
