-- ===== src/Uplink/Manager/Operations/Ignoring.antt =====
-- The setting IGNORE_UPLINK: what it keeps from ending.
use cam_bus.Base.{ℕ, ◌≤◌, true, String, some, ◌≡◌}
use cam_bus.Base.Dict.{lookup}
use cam_bus.Uplink.Request.{Request}
use cam_bus.Uplink.Manager.{UplinkProcess, Manager}
use cam_bus.Uplink.Manager.Operations.{
  Event, start_command, stop_command, timer, late_timer, camera_gone, reconcile_round, reconcile,
  shutdown,
}

-- Every event but those of the reconciler.
abbrev pub Commanded : Event → Type 0
Commanded (start_command _) = Unit
Commanded (stop_command _) = Unit
Commanded (timer _) = Unit
Commanded (late_timer _) = Unit
Commanded (camera_gone _) = Unit
Commanded (reconcile_round _) = ⊥
Commanded reconcile = ⊥
Commanded shutdown = Unit

-- The manager holds an uplink with the key, against which no more stops are counted than these.
abbrev pub Holds : Manager → String → ℕ → Type 0
Holds m key n = (p : UplinkProcess) × (lookup key m.uplinks ≡ some p) × (p.stop_count ≤ n)

module _ (key : String) (n : ℕ) where
  abbrev Kept : {W : Type 0} → Manager × W → Type 0
  Kept r = (r.0.ignore_uplink ≡ true) × Holds r.0 key n
