-- ===== src/Tests/Cameras.antt =====
-- Runs of the drivers against one camera, which keeps the log of what the driver does to the world.
use mathlib.Core.Path.{subst}
use mathlib.Core.Option.{some-injective}
use cam_bus.Base.{Bool, true, false, String, none, some, ok, List, [], ◌∷◌, ◌≡◌, refl, ◌<>◌}
use cam_bus.Base.Int.{pos}
use cam_bus.Base.Json.{no_members}
use cam_bus.Base.Str.{
  after_first, equal_fold, split, to_lower, trim_space, drop_chars, span, drop_prefix, char_count,
  trim_suffix,
}
use cam_bus.Core.{AnalyticEvent}
use cam_bus.Drivers.{StatusUpdate}
use cam_bus.Drivers.Camera.{Lib, Camera, Response, eof}
use cam_bus.Drivers.Digest.{is_word, send_checked, DigestChallenge, parse_digest_auth_header}
use cam_bus.Drivers.Digest.Reading.{challenge_text, parse_digest_auth_header-challenge_text}
use cam_bus.Drivers.Ending.{IsContext, Ended}
use cam_bus.Drivers.Rounds.{rounds}
use cam_bus.Core.Analytics.{in_set}
use cam_bus.Drivers.Keeping.{Keeps}
use cam_bus.Drivers.Hikvision
use cam_bus.Drivers.Hikvision.Ending.{hikvision_run_once-Ended}
use cam_bus.Drivers.Hikvision.Keeping.{CameraEvent, hikvision_run_keeps}
use cam_bus.Drivers.Hikvision.Xml.{replace_prefixes, strip_xml_namespace}
use cam_bus.Drivers.Hikvision.Xml.Prefixes.{replace_prefixes-tags}
use cam_bus.Drivers.Dahua
use cam_bus.Drivers.Dahua.Ending.{dahua_run_ends}
use cam_bus.Drivers.Dahua.Keeping.{SelectedEvent, dahua_run_keeps}
use cam_bus.Drivers.Snapshots.{snapshot_key}
use cam_bus.Drivers.Snapshots.Keys.{key_parts, split-snapshot_key}
use cam_bus.Tests.Fixtures.{camera, event_of_camera}

-- What happens to the world: an event is sent, a state is reported, the context ends.
data Happening : Type 0 where
  sent : AnalyticEvent → Happening
  reported : StatusUpdate → Happening
  done : Happening

abbrev World : Type 0
World = List Happening

-- The context is done.
is_done : World → Bool
is_done [] = false
is_done (sent _ ∷ w) = is_done w
is_done (reported _ ∷ w) = is_done w
is_done (done ∷ w) = true

abbrev IsDone : World → Type 0
IsDone w = is_done w ≡ true

-- The type of every event that was sent, where its image is stored, and the image.
sent_events : World → List (String × (String × String))
sent_events [] = []
sent_events (sent e ∷ w) = (e.analytic_type, (e.snapshot_url, e.snapshot_b64)) ∷ sent_events w
sent_events (reported _ ∷ w) = sent_events w
sent_events (done ∷ w) = sent_events w

abbrev AllSent : (AnalyticEvent → Type 0) → World → Type 0
AllSent Ok [] = Unit
AllSent Ok (sent e ∷ w) = Ok e × AllSent Ok w
AllSent Ok (reported _ ∷ w) = AllSent Ok w
AllSent Ok (done ∷ w) = AllSent Ok w

abbrev answer : Response
answer = record {
  status = 200;
  header = λ _. "multipart/mixed; boundary=b";
  body = (255 ∷ 216 ∷ [], none);
  parts = λ _. (
    record { content_type = "text/plain"; content = ok (67 ∷ []) }
        ∷ record { content_type = "application/xml"; content = ok (60 ∷ []) }
        ∷ record { content_type = "image/jpeg"; content = ok (255 ∷ 216 ∷ []) }
        ∷ [],
    eof,
  );
}

abbrev lib : Lib
lib = record {
  request_error = λ _. none;
  request_uri = λ url. ok url;
  parse_media_type = λ _. ok ("multipart/mixed", "b");
  md5 = λ _. [];
  base64 = λ _. "/9g=";
  text_of = λ _. "Code=FaceDetection;action=Start;index=0";
  quote = λ s. s;
  parse_time = λ _. none;
  parse_object = λ _. ok no_members;
  parse_alert = λ _. ok (record {
    event_type = "faceCapture";
    event_description = "";
    event_state = "active";
    channel_id = pos 1;
    channel_name = "";
    date_time = "";
  });
  float_gt = λ _ _. false;
}

-- The camera sends its parts, and the context ends during the first wait.
abbrev cam : Camera World
cam = record {
  send = λ _ w. (ok answer, w);
  random = λ _ w. ([], w);
  now = λ w. (62135596800000000000, w);
  notify = λ u w. reported u ∷ w;
  emit = λ e w. (true, sent e ∷ w);
  save = some (λ key img ct w. (ok "http://minio/snapshot.jpg", w));
  cancelled = λ w. (is_done w, w);
  wait = λ w. (false, done ∷ w);
}

sending_keeps : (Ok : AnalyticEvent → Type 0) → Keeps (AllSent Ok) Ok cam
sending_keeps Ok = record {
  send = λ _ w p. p;
  random = λ _ w p. p;
  now = λ w p. p;
  notify = λ u w p. p;
  emit = λ e w good p. (good, p);
  save = λ f store key img ct w p.
      subst (λ g. AllSent Ok (g key img ct w).1) (some-injective _ _ store) p;
  cancelled = λ w p. p;
  wait = λ w p. p;
}

context : IsContext IsDone cam
unfolding is_done
context = record {
  stays = record {
    send = λ _ w p. p;
    random = λ _ w p. p;
    now = λ w p. p;
    notify = λ u w p. p;
    emit = λ e w good p. p;
    save = λ f store key img ct w p.
        subst (λ g. is_done (g key img ct w).1 ≡ true) (some-injective _ _ store) p;
    cancelled = λ w p. p;
    wait = λ w p. refl;
  };
  cut_emit = λ evt w cut. absurd (cc cut);
  cut_wait = λ w cut. refl;
  done_iff = λ w. (λ d. d, λ d. d);
}

hikvision_run_keeps_example : AllSent (CameraEvent lib camera) (Hikvision.run lib cam camera 2 []).1
hikvision_run_keeps_example =
    hikvision_run_keeps (AllSent (CameraEvent lib camera)) lib cam camera
      (sending_keeps (CameraEvent lib camera)) 2 [] tt

dahua_run_keeps_example : AllSent (SelectedEvent camera) (Dahua.run lib cam camera 2 []).1
dahua_run_keeps_example =
    dahua_run_keeps (AllSent (SelectedEvent camera)) lib cam camera
      (sending_keeps (SelectedEvent camera)) 2 [] tt

hikvision_run_once-Ended_example : Ended IsDone cam (Hikvision.run_once lib cam camera [])
hikvision_run_once-Ended_example = hikvision_run_once-Ended IsDone lib cam camera context []

dahua_run_ends_example :
    ((Dahua.run lib cam camera 1 []).0 ≡ true → IsDone (Dahua.run lib cam camera 1 []).1)
    × (IsDone (Dahua.run lib cam camera 1 []).1 → (Dahua.run lib cam camera 2 []).0 ≡ true)
dahua_run_ends_example = dahua_run_ends IsDone lib cam camera context 1 []

-- The image goes with the event before it.
hikvision_pairs :
    sent_events (Hikvision.run lib cam camera 2 []).1
    ≡ ("faceCapture", ("http://minio/snapshot.jpg", "/9g=")) ∷ []
unfolding Hikvision.run sent_events rounds is_done
hikvision_pairs = refl

dahua_reports :
    sent_events (Dahua.run lib cam camera 2 []).1
    ≡ ("FaceDetection", ("http://minio/snapshot.jpg", "/9g=")) ∷ []
unfolding Dahua.run sent_events rounds send_checked after_first trim_space span in_set
    Dahua.allowed_codes Dahua.selected_event_codes to_lower equal_fold is_done
dahua_reports = refl

abbrev challenge : DigestChallenge
challenge = record { realm = "IP Camera(C1)"; nonce = "4e5a:f0"; qop = "auth" }

parse_digest_auth_header-challenge_text_example :
    parse_digest_auth_header (challenge_text challenge) ≡ ok challenge
parse_digest_auth_header-challenge_text_example =
    parse_digest_auth_header-challenge_text challenge
      (
        (
          refl,
          (
            refl,
            (
              refl,
              (refl, (refl, (refl, (refl, (refl, (refl, (refl, (refl, (refl, (refl, tt)))))))))),
            ),
          ),
        ),
        refl,
      )
      ((refl, (refl, (refl, (refl, (refl, (refl, (refl, tt))))))), refl)
      ((refl, (refl, (refl, (refl, tt)))), refl)

-- The protection that a camera offers in two ways is read as one.
qop_of_two :
    parse_digest_auth_header "Digest qop=\"auth,auth-int\", realm=\"r\", nonce=\"n\", stale=FALSE"
    ≡ ok (record { realm = "r"; nonce = "n"; qop = "auth,auth-int" })
unfolding parse_digest_auth_header to_lower trim_space drop_chars span drop_prefix char_count
qop_of_two = refl

split-snapshot_key_example :
    split b'/' (snapshot_key camera event_of_camera 62135596800000000000)
    ≡ key_parts camera event_of_camera 62135596800000000000
split-snapshot_key_example =
    split-snapshot_key camera event_of_camera 62135596800000000000 (refl, (refl, tt))

replace_prefixes-tags_example :
    (replace_prefixes 0 "<ns:eventType>" ≡ "<" <> replace_prefixes 0 "eventType>")
    × (replace_prefixes 0 "</ns:eventType>" ≡ "<" <> replace_prefixes 0 "eventType>")
unfolding is_word
replace_prefixes-tags_example = replace_prefixes-tags "ns" "eventType>" ((refl, (refl, tt)), refl)

stripped_lines : strip_xml_namespace "<a:b>1</a:b>\n<c/>" ≡ "<b>1<b><c/>"
unfolding strip_xml_namespace split trim_suffix span is_word char_count
stripped_lines = refl

stripped_line : strip_xml_namespace "<a:b>1</a:b>" ≡ "<a:b>1</a:b>"
unfolding strip_xml_namespace split
stripped_line = refl
