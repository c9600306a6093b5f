-- ===== src/Drivers/Digest.antt =====
-- internal/drivers/hikvision.go: digest authentication, which the Dahua driver uses too.
pub mod Reading
use Prim.Native.Char.{Char, code}
use text.Mathlib.Text.{starts_with}
use cam_bus.Base.{
  ℕ, zero, suc, ◌+◌, Bool, String, ◌<>◌, Option, none, some, Result, ok, err, List, [], ◌∷◌, ◌==◌,
  ◌&&◌, ◌||◌, not, leb, nat_eq, if◌then◌else◌,
}
use cam_bus.Base.Str.{
  trim_space, to_lower, is_char, is_empty, span, drop_prefix, drop_chars, char_count,
}
use cam_bus.Base.Str.Hex.{hex}
use cam_bus.Core.{CameraInfo}
use cam_bus.Drivers.Camera.{HttpRequest, Response, Lib, Camera}

-- digestChallenge
pub record DigestChallenge : Type 0 where
  pub realm : String
  pub nonce : String
  pub qop : String

-- `\w`
unfoldable pub is_word : Char → Bool
is_word c =
    let n = code c in
    (leb b'a' n && leb n b'z')
    || (leb b'A' n && leb n b'Z')
    || (leb b'0' n && leb n b'9')
    || is_char b'_' c

-- `(\w+)="([^"]+)"` at the beginning of the text: its two groups
unfoldable pub match_at : String → Option (String × String)
unfolding is_word
match_at s =
    let (key, rest) = span (λ c. not (is_word c)) s in
    let (value, rest') = span (is_char 34) (drop_prefix rest "=\"") in
    if not (is_empty key) && starts_with rest "=\"" && not (is_empty value) && not (is_empty rest')
    then some (key, value)
    else none

-- digestRx.FindAllStringSubmatch. The number counts the characters that the last match still covers.
unfoldable pub find_all : ℕ → String → List (String × String)
unfolding match_at
find_all n String.[] = []
find_all (suc n) (String.◌∷◌ c s) = find_all n s
find_all zero (String.◌∷◌ c s) =
    let next = find_all zero s in
    elim (match_at (String.◌∷◌ c s)) [
      | none ↦ next
      | some (key, value) ↦ (key, value) ∷ find_all (char_count (key <> "=\"" <> value)) s
    ]

-- the switch in the loop over the matches
unfoldable pub set_field : DigestChallenge → String × String → DigestChallenge
set_field res (key, value) =
    let k = to_lower key in
    if k == "realm"
    then record res { realm = value }
    else if k == "nonce"
    then record res { nonce = value }
    else if k == "qop"
    then record res { qop = value }
    else res

unfoldable pub set_fields : DigestChallenge → List (String × String) → DigestChallenge
unfolding set_field
set_fields res [] = res
set_fields res (kv ∷ kvs) = set_fields (set_field res kv) kvs

abbrev no_challenge : DigestChallenge
no_challenge = record { realm = ""; nonce = ""; qop = "" }

-- parseDigestAuthHeader
unfoldable pub parse_digest_auth_header : String → Result String DigestChallenge
unfolding find_all set_fields
parse_digest_auth_header h =
    if not (starts_with (to_lower h) "digest ")
    then err ("WWW-Authenticate não é Digest: " <> h)
    else (let fields = trim_space (drop_chars 7 h) in
        let res = set_fields no_challenge (find_all 0 fields) in
        if res.realm == "" || res.nonce == ""
        then err ("realm/nonce ausentes em WWW-Authenticate: " <> fields)
        else ok (if res.qop == "" then record res { qop = "auth" } else res))

-- md5Hex
abbrev md5_hex : Lib → String → String
md5_hex lib s = hex (lib.md5 s)

-- the response to a challenge
unfoldable pub digest_response :
    Lib → CameraInfo → DigestChallenge → String → String → String → String
digest_response lib info digest method uri cnonce =
    let ha1 = md5_hex lib (info.username <> ":" <> digest.realm <> ":" <> info.password) in
    let ha2 = md5_hex lib (method <> ":" <> uri) in
    md5_hex lib
      (ha1 <> ":" <> digest.nonce <> ":00000001:" <> cnonce <> ":" <> digest.qop <> ":" <> ha2)

-- the header "Authorization"
unfoldable pub auth_value : Lib → CameraInfo → DigestChallenge → String → String → String → String
unfolding digest_response
auth_value lib info digest method uri cnonce =
    "Digest username=\""
    <> info.username
    <> "\", realm=\""
    <> digest.realm
    <> "\", nonce=\""
    <> digest.nonce
    <> "\", uri=\""
    <> uri
    <> "\", algorithm=MD5, response=\""
    <> digest_response lib info digest method uri cnonce
    <> "\", qop="
    <> digest.qop
    <> ", nc=00000001, cnonce=\""
    <> cnonce
    <> "\""

module _ {W : Type 0} (lib : Lib) (cam : Camera W) where
  -- randomHex
  unfoldable pub random_hex : ℕ → W → String × W
  random_hex n w = let (bytes, w') = cam.random n w in (hex bytes, w')

  -- http.NewRequestWithContext and (*http.Client).Do
  unfoldable pub send_checked : HttpRequest → W → Result String Response × W
  send_checked req w = elim (lib.request_error req) [ some e ↦ (err e, w) | none ↦ cam.send req w ]

  -- the second attempt, with the answer to the challenge
  unfoldable pub send_signed :
      CameraInfo → HttpRequest → Result String DigestChallenge → W → Result String Response × W
  unfolding send_checked random_hex auth_value
  send_signed info req (err e) w = (err e, w)
  send_signed info req (ok digest) w = elim (lib.request_uri req.url) [
    | err e ↦ (err e, w)
    | ok uri ↦
        (let (cnonce, w') = random_hex 16 w in
          send_checked
            (record req { authorization = auth_value lib info digest req.method uri cnonce }) w')
  ]

  -- below the first attempt
  unfoldable pub answer_challenge :
      CameraInfo → HttpRequest → Result String Response → W → Result String Response × W
  unfolding send_signed parse_digest_auth_header
  answer_challenge info req (err e) w = (err e, w)
  answer_challenge info req (ok resp) w =
      let signed =
        send_signed info req (parse_digest_auth_header (resp.header "WWW-Authenticate")) w in
      if nat_eq resp.status 401 then signed else (ok resp, w)

  -- doDigest of the Hikvision driver
  unfoldable pub do_digest : CameraInfo → HttpRequest → W → Result String Response × W
  unfolding answer_challenge send_checked
  do_digest info req w = let (r, w') = send_checked req w in answer_challenge info req r w'
