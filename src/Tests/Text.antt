-- ===== src/Tests/Text.antt =====
-- Runs of the text helpers and of the readers of FFmpeg's logs.
use cam_bus.Base.{some, none, ◌≡◌, refl, ◌∷◌, []}
use cam_bus.Base.Int.{pos, negsuc}
use cam_bus.Base.Str.{drop_prefix, contains}
use cam_bus.Base.Str.Decimal.{atoi, scan_int, show_int}
use cam_bus.Uplink.Srt.Query.{encode}
use cam_bus.Uplink.Container.Logs.{
  unsupported_ffmpeg_option, classify_ffmpeg_logs, unsupported_option, network_failure,
}

atoi_signed : atoi "-8890" ≡ some (negsuc 8889)
unfolding atoi
atoi_signed = refl

atoi_spaced : atoi "88 90" ≡ none
unfolding atoi
atoi_spaced = refl

scan_prefix : scan_int "15s" ≡ some (pos 15)
unfolding scan_int
scan_prefix = refl

show_port : show_int (pos 8890) ≡ "8890"
unfolding show_int
show_port = refl

encode_sorted : encode (("b", "x y") ∷ ("a", "é/~") ∷ []) ≡ "a=%C3%A9%2F~&b=x+y"
unfolding encode
encode_sorted = refl

old_ffmpeg : unsupported_ffmpeg_option "x: Option stimeout not found." ≡ "stimeout"
unfolding unsupported_ffmpeg_option drop_prefix
old_ffmpeg = refl

new_ffmpeg :
    classify_ffmpeg_logs "Unrecognized option 'stimeout'."
    ≡ (unsupported_option, "ffmpeg unsupported option: stimeout")
unfolding classify_ffmpeg_logs unsupported_ffmpeg_option drop_prefix
new_ffmpeg = refl

refused : classify_ffmpeg_logs "srt: Connection refused" ≡ (network_failure, "")
unfolding classify_ffmpeg_logs unsupported_ffmpeg_option contains
refused = refl
