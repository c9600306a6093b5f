-- ===== src/MediaMtx/Retention.antt =====
-- internal/mediamtx/config.go: how long the recordings of a camera are kept.
use Prim.Native.Nat.{min}
use cam_bus.Base.{ℕ, zero, suc, ◌*◌, ◌≤◌, true, false, ◌≡◌, refl, arith, ◌∙◌, ap}
use cam_bus.Base.Int.{ℤ, pos, negsuc, is_positive, is_negative}
use cam_bus.Core.{CameraInfo}
use cam_bus.MediaMtx.Config.{retention_for_camera, minute, minutes_of, at_most_default}

short : (n : ℕ) → n ≤ 153722867 → minutes_of (pos n) ≡ pos (n * minute)
short n few = ground arith

long : (n : ℕ) → 153722868 ≤ n → n ≤ 307445734 → is_negative (minutes_of (pos n)) ≡ true
long n many bounded = ground arith

is_positive_pos : (n : ℕ) → 1 ≤ n → is_positive (pos n) ≡ true
is_positive_pos zero positive = absurd (omega arith)
is_positive_pos (suc n) positive = refl

at_most_default_pos : (def r : ℕ) → at_most_default def (pos r) ≡ pos (min r def)
at_most_default_pos def r = ground arith

at_most_default-is_negative :
    (def : ℕ) (d : ℤ) → is_negative d ≡ true → is_negative (at_most_default def d) ≡ true
at_most_default-is_negative def (pos r) h = cc
at_most_default-is_negative def (negsuc k) h = refl

-- The recordings of a camera whose minutes are not positive are kept for the generator's retention. From
-- 1 minute to 153722867 minutes, they are kept for this time or for the generator's retention, whichever
-- is shorter. From 153722868 minutes to 307445734, the product wraps around, and the retention is
-- negative.
pub retention_for_camera_lem :
    (info : CameraInfo) (def : ℕ)
    → let kept = retention_for_camera info def in
      (is_positive info.record_retention_minutes ≡ false → kept ≡ pos def)
      × ((n : ℕ)
          → info.record_retention_minutes ≡ pos n
          → 1 ≤ n
          → n ≤ 153722867
          → kept ≡ pos (min (n * minute) def))
      × ((n : ℕ)
          → info.record_retention_minutes ≡ pos n
          → 153722868 ≤ n
          → n ≤ 307445734
          → is_negative kept ≡ true)
unfolding retention_for_camera
retention_for_camera_lem info def = (
  λ none_given. rw none_given refl,
  λ n given positive few.
      rw (given, is_positive_pos n positive)
        (ap (at_most_default def) (short n few) ∙ at_most_default_pos def (n * minute)),
  λ n given many bounded.
      rw (given, is_positive_pos n (omega (arith, many)))
        (at_most_default-is_negative def (minutes_of (pos n)) (long n many bounded)),
)
