-- ===== src/Uplink/Path.antt =====
-- internal/uplink/path.go: the path of a camera on the central server, and Go's `path.Join`.
use text.Mathlib.Text.{starts_with}
use cam_bus.Base.{Bool, String, ◌<>◌, List, [], ◌∷◌, ◌==◌, ◌||◌, not, keep, if◌then◌else◌}
use cam_bus.Base.Str.{trim_space, trim_slashes, split, join, is_empty}
use cam_bus.Core.{CameraInfo}

reverse_list {ℓ} : {A : Type ℓ} → List A → List A → List A
reverse_list [] acc = acc
reverse_list (x ∷ xs) acc = reverse_list xs (x ∷ acc)

-- one ".." after the segments `acc`, the last one first
go_up : Bool → List String → List String
go_up rooted [] = if rooted then [] else ".." ∷ []
go_up rooted (s ∷ acc) = if s == ".." then ".." ∷ (s ∷ acc) else acc

clean_segments : Bool → List String → List String → List String
unfolding reverse_list go_up
clean_segments rooted [] acc = reverse_list acc []
clean_segments rooted (s ∷ rest) acc =
    let skip = clean_segments rooted rest acc in
    let up = clean_segments rooted rest (go_up rooted acc) in
    let down = clean_segments rooted rest (s ∷ acc) in
    if s == "" || s == "." then skip else if s == ".." then up else down

-- path.Clean
unfoldable pub clean : String → String
unfolding clean_segments
clean s =
    let rooted = starts_with s "/" in
    let body = join "/" (clean_segments rooted (split b'/' s) []) in
    if rooted then "/" <> body else if body == "" then "." else body

-- path.Join
unfoldable pub path_join : List String → String
unfolding clean
path_join elems = elim (keep (λ e. not (is_empty e)) elems) [
  | [] ↦ ""
  | e ∷ es ↦ clean (join "/" (e ∷ es))
]

-- CentralPathFor
unfoldable pub central_path_for : CameraInfo → String
unfolding path_join
central_path_for info = path_join (
    trim_slashes (trim_space info.tenant)
    ∷ trim_slashes (trim_space info.building)
    ∷ trim_slashes (trim_space info.device_id)
    ∷ [])
