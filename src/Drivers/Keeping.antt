-- ===== src/Drivers/Keeping.antt =====
-- What a driver keeps of the world, whatever the camera answers: helpers for both drivers.
use cam_bus.Base.{
  ℕ, zero, suc, String, Option, some, Result, ok, err, ◌≡◌, arith, nat_eq, inl, inr, Result-cases,
  Option-cases, if◌then◌else◌,
}
use cam_bus.Base.State.{St, if_keeps}
use cam_bus.Core.{CameraInfo, AnalyticEvent}
use cam_bus.Drivers.{StatusUpdate}
use cam_bus.Drivers.Camera.{Lib, Camera, HttpRequest, Response, Bytes}
use cam_bus.Drivers.Digest.{
  DigestChallenge, random_hex, send_checked, send_signed, answer_challenge, do_digest,
  parse_digest_auth_header,
}
use cam_bus.Drivers.Rounds.{round, rounds}

module _ {κ μ} {W : Type 0} (P : W → Type κ) (Ok : AnalyticEvent → Type μ) (cam : Camera W) where
  -- Every call keeps `P`, that of the channel for events which are `Ok`.
  pub record Keeps : Type (κ ⊔ μ) where
    pub send : (req : HttpRequest) (w : W) → P w → P (cam.send req w).1
    pub random : (n : ℕ) (w : W) → P w → P (cam.random n w).1
    pub now : (w : W) → P w → P (cam.now w).1
    pub notify : (u : StatusUpdate) (w : W) → P w → P (cam.notify u w)
    pub emit : (evt : AnalyticEvent) (w : W) → Ok evt → P w → P (cam.emit evt w).1
    pub save :
        (f : String → Bytes → String → St W (Result String String))
        → cam.save ≡ some f
        → (key : String) (img : Bytes) (ct : String) (w : W) → P w
        → P (f key img ct w).1
    pub cancelled : (w : W) → P w → P (cam.cancelled w).1
    pub wait : (w : W) → P w → P (cam.wait w).1

  module _ (k : Keeps) (lib : Lib) where
    pub send_checked_keeps : (req : HttpRequest) (w : W) → P w → P (send_checked lib cam req w).1
    unfolding send_checked
    send_checked_keeps req w p = grind (arith, k.send req w p)

    pub send_signed_keeps :
        (info : CameraInfo) (req : HttpRequest) (r : Result String DigestChallenge) (w : W)
        → P w
        → P (send_signed lib cam info req r w).1
    unfolding send_signed random_hex
    send_signed_keeps info req (err e) w p = p
    send_signed_keeps info req (ok digest) w p = elim (Result-cases (lib.request_uri req.url)) [
      | inl (uri, found) ↦
          rw (found, send_signed) (send_checked_keeps _ (cam.random 16 w).1 (k.random 16 w p))
      | inr (e, refused) ↦ rw (refused, send_signed) p
    ]

    pub answered_keeps :
        (info : CameraInfo) (req : HttpRequest) (resp : Response) (w : W)
        → P w
        → P
            (let signed =
                send_signed lib cam info req
                  (parse_digest_auth_header (resp.header "WWW-Authenticate"))
                  w in
              if nat_eq resp.status 401 then signed else (ok resp, w)).1
    answered_keeps info req resp w p =
        if_keeps P (nat_eq resp.status 401) _ _
          (λ _.
            send_signed_keeps info req (parse_digest_auth_header (resp.header "WWW-Authenticate")) w
              p)
          (λ _. p)

    answer_challenge_keeps :
        (info : CameraInfo) (req : HttpRequest) (r : Result String Response) (w : W)
        → P w
        → P (answer_challenge lib cam info req r w).1
    unfolding answer_challenge
    answer_challenge_keeps info req (err e) w p = p
    answer_challenge_keeps info req (ok resp) w p = answered_keeps info req resp w p

    pub do_digest_keeps :
        (info : CameraInfo) (req : HttpRequest) (w : W) → P w → P (do_digest lib cam info req w).1
    unfolding do_digest
    do_digest_keeps info req w p =
        answer_challenge_keeps info req (send_checked lib cam req w).0 _
          (send_checked_keeps req w p)

  module _ (k : Keeps) (once : St W (Option String))
      (once_keeps : (w : W) → P w → P (once w).1) where
    round_keeps : (w : W) → P w → P (round cam once w).1
    unfolding round
    round_keeps w p = elim (Option-cases (once w).0) [
      | inl done ↦ rw (done, round) (once_keeps w p)
      | inr (_, failed) ↦
          let p' = k.cancelled (once w).1 (once_keeps w p) in
          rw (failed, round)
            (if_keeps P (cam.cancelled (once w).1).0 _ _ (λ _. p') (λ _. k.wait _ p'))
    ]

    pub rounds_keeps : (n : ℕ) (w : W) → P w → P (rounds cam once n w).1
    unfolding rounds
    rounds_keeps zero w p = p
    rounds_keeps (suc n) w p =
        if_keeps P (round cam once w).0 _ _ (λ _. round_keeps w p)
          (λ _. rounds_keeps n _ (round_keeps w p))
