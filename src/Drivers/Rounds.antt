-- ===== src/Drivers/Rounds.antt =====
-- internal/drivers/hikvision.go and dahua.go: `Run`, which connects again after an error.
use cam_bus.Base.{ℕ, zero, suc, Bool, true, false, not, String, Option, none, some, if◌then◌else◌}
use cam_bus.Base.State.{St}
use cam_bus.Drivers.Camera.{Camera}

module _ {W : Type 0} (cam : Camera W) (once : St W (Option String)) where
  -- one turn of the loop: whether `Run` returns
  unfoldable pub round : W → Bool × W
  round w =
      let (r, w₁) = once w in
      elim r [
        | none ↦ (true, w₁)
        | some _ ↦
            (let (done, w₂) = cam.cancelled w₁ in
              let (waited, w₃) = cam.wait w₂ in if done then (true, w₂) else (not waited, w₃))
      ]

  -- As many turns, at most: whether `Run` has returned.
  unfoldable pub rounds : ℕ → W → Bool × W
  unfolding round
  rounds zero w = (false, w)
  rounds (suc n) w =
      let (done, w') = round w in let rest = rounds n w' in if done then (true, w') else rest
