-- ===== src/Drivers/Camera.antt =====
-- What the drivers of internal/drivers use of net/http, mime/multipart, their context, their channel,
-- the clock and the object store.
use cam_bus.Base.{ℕ, Bool, String, Option, Result, List}
use cam_bus.Base.Int.{ℤ}
use cam_bus.Base.Json.{Members}
use cam_bus.Base.State.{St}
use cam_bus.Core.{AnalyticEvent}
use cam_bus.Drivers.{StatusUpdate}

abbrev pub Bytes : Type 0
Bytes = List ℕ

-- A request, always with "Connection: keep-alive". A header that is not set and a body that is not
-- given are empty.
pub record HttpRequest : Type 0 where
  pub method : String
  pub url : String
  pub content_type : String
  pub authorization : String
  pub body : String

-- A part of a multipart body; its content is what io.ReadAll returns.
pub record Part : Type 0 where
  pub content_type : String
  pub content : Result String Bytes

-- How a stream of parts ends: io.EOF, or another error. A cancelled context is one.
pub data End : Type 0 where
  eof : End
  broken : String → End

-- A response. `body` is what io.ReadAll returns, and its error; `parts` is what a multipart reader with
-- a boundary reads.
pub record Response : Type 0 where
  pub status : ℕ
  pub header : String → String
  pub body : Bytes × Option String
  pub parts : String → List Part × End

-- EventNotificationAlert, after its decoding
pub record Alert : Type 0 where
  pub event_type : String
  pub event_description : String
  pub event_state : String
  pub channel_id : ℤ
  pub channel_name : String
  pub date_time : String

-- Pure library functions.
pub record Lib : Type 0 where
  -- the error of http.NewRequestWithContext
  pub request_error : HttpRequest → Option String
  -- url.Parse and RequestURI
  pub request_uri : String → Result String String
  -- mime.ParseMediaType: the type, and the parameter "boundary"
  pub parse_media_type : String → Result String (String × String)
  -- md5.Sum, base64.StdEncoding.EncodeToString, string(data) and %q
  pub md5 : String → Bytes
  pub base64 : Bytes → String
  pub text_of : Bytes → String
  pub quote : String → String
  -- time.Parse(time.RFC3339, s) in UTC, of times from the year 1 on
  pub parse_time : String → Option ℕ
  -- json.Unmarshal into a map, xml.Unmarshal into an alert
  pub parse_object : Bytes → Result String Members
  pub parse_alert : String → Result String Alert
  -- x > y of float64
  pub float_gt : String → String → Bool

-- What acts on the outside world, or reads it.
pub record Camera (W : Type 0) : Type 0 where
  -- (*http.Client).Do
  pub send : HttpRequest → St W (Result String Response)
  -- crypto/rand
  pub random : ℕ → St W Bytes
  -- time.Now().UTC()
  pub now : St W ℕ
  -- the status handler
  pub notify : StatusUpdate → W → W
  -- events <- evt; false where the context is done first
  pub emit : AnalyticEvent → St W Bool
  -- storage.DefaultStore.SaveSnapshot, with its time limit
  pub save : Option (String → Bytes → String → St W (Result String String))
  -- ctx.Err() != nil
  pub cancelled : St W Bool
  -- the wait of five seconds; false where the context is done first
  pub wait : St W Bool
