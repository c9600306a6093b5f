-- ===== src/FindFace/Creating.antt =====
-- internal/findface/client.go: when an event is created.
use mathlib.Core.Logic.{◌↔◌}
use cam_bus.Base.{
  Bool, true, false, String, ◌<>◌, none, Result, ok, err, [], ◌∷◌, ◌≡◌, ◌≢◌, ◌==◌, ◌||◌, refl, ap,
  sym, ◌∙◌, Result-cases, inl, inr, Bool-cases, Option-cases, nat_eq, if◌then◌else◌,
}
use cam_bus.FindFace.{Client, Bytes, CreateFaceEventResponse, parse_create_face_event_response}
use cam_bus.FindFace.Calls.{
  Lib, Http, Reply, event_request, created, send_checked, create_face_event, status_error,
  create_face_event_from_bytes,
}

-- A response that says that the event is there, with this body.
abbrev pub IsCreated : Result String Reply → Bytes → Type 0
IsCreated (err e) body = ⊥
IsCreated (ok reply) body =
    (reply.body ≡ ok body) × ((nat_eq reply.status 200 || nat_eq reply.status 201) ≡ true)

-- A response of which this is read.
abbrev pub Created : Lib → Result String Reply → CreateFaceEventResponse → Type 0
Created lib r x =
    (body : Bytes) × IsCreated r body
    × (x ≡ parse_create_face_event_response lib.int_of lib.decode body)

abbrev says_created : Reply → Bool
says_created reply = nat_eq reply.status 200 || nat_eq reply.status 201

created_ok :
    (lib : Lib) (reply : Reply) (body : Bytes)
    → reply.body ≡ ok body
    → says_created reply ≡ true
    → created lib (ok reply) ≡ ok (parse_create_face_event_response lib.int_of lib.decode body)
unfolding created
created_ok lib reply body read good = rw (read, created, good) refl

created_error :
    (lib : Lib) (reply : Reply) (body : Bytes)
    → reply.body ≡ ok body
    → says_created reply ≡ false
    → created lib (ok reply) ≡ status_error lib "faces/add" reply body
unfolding created
created_error lib reply body read bad = rw (read, created, bad) refl

created_unread :
    (lib : Lib) (reply : Reply) (e : String)
    → reply.body ≡ err e
    → created lib (ok reply) ≡ err ("erro ao ler resposta faces/add: " <> e)
unfolding created
created_unread lib reply e unread = rw (unread, created) refl

created_read :
    (lib : Lib) (reply : Reply) (x : CreateFaceEventResponse) (body : Bytes)
    → reply.body ≡ ok body
    → created lib (ok reply) ≡ ok x
    → Created lib (ok reply) x
created_read lib reply x body read is_ok = elim (Bool-cases (says_created reply)) [
  | inl good ↦ let same = created_ok lib reply body read good in (body, (read, good), cc)
  | inr bad ↦ let error = created_error lib reply body read bad in absurd (cc)
]

created-Created :
    (lib : Lib) (r : Result String Reply) (x : CreateFaceEventResponse)
    → created lib r ≡ ok x ↔ Created lib r x
unfolding created
created-Created lib (err e) x = (λ is_ok. cc, λ (body, h, parsed). absurd h)
created-Created lib (ok reply) x = (
  λ is_ok. elim (Result-cases reply.body) [
    | inl (body, read) ↦ created_read lib reply x body read is_ok
    | inr (e, unread) ↦ let error = created_unread lib reply e unread in absurd (cc)
  ],
  λ (body, (read, good), parsed). created_ok lib reply body read good ∙ ap ok (sym parsed),
)

module _ {W : Type 0} (lib : Lib) (http : Http W) (c : Client) where
  create_face_event_Created :
      (name : String) (img : Bytes) (w : W) (x : CreateFaceEventResponse)
      → let (time, w₁) = http.now w in
        let req = event_request lib c name img time in
        (create_face_event lib http c name img w).0 ≡ ok x
        ↔ (lib.request_error req ≡ none) × Created lib (http.send req w₁).0 x
  unfolding create_face_event send_checked
  create_face_event_Created name img w x =
      let (time, w₁) = http.now w in
      let req = event_request lib c name img time in
      elim (Option-cases (lib.request_error req)) [
        | inl fine ↦
            rw (fine, create_face_event)
              (
                λ is_ok. (refl, (created-Created lib (http.send req w₁).0 x).0 is_ok),
                λ (_, h). (created-Created lib (http.send req w₁).0 x).1 h,
              )
        | inr (e, refused) ↦ rw (refused, create_face_event) (λ is_ok. cc, λ (h, _). cc)
      ]

  -- Creating an event from an image succeeds exactly when the image is not empty, the request is well
  -- formed, and the answer to the one request that is sent is read and has status 200 or 201; its
  -- result is then read from that answer's body.
  pub create_face_event_from_bytes-Created :
      (img : Bytes) (filename : String) (w : W) (x : CreateFaceEventResponse)
      → let name = if filename == "" then "snapshot.jpg" else filename in
        let (time, w₁) = http.now w in
        let req = event_request lib c name img time in
        (create_face_event_from_bytes lib http c img filename w).0 ≡ ok x
        ↔ (img ≢ []) × (lib.request_error req ≡ none) × Created lib (http.send req w₁).0 x
  unfolding create_face_event_from_bytes
  create_face_event_from_bytes-Created [] filename w x =
      (λ is_ok. cc, λ (some_image, _, _). absurd (some_image refl))
  create_face_event_from_bytes-Created (b ∷ bs) filename w x =
      let name = if filename == "" then "snapshot.jpg" else filename in
      let both = create_face_event_Created name (b ∷ bs) w x in
      (λ is_ok. (λ empty. cc, (both.0 is_ok).0, (both.0 is_ok).1), λ (_, fine, h). both.1 (fine, h))
