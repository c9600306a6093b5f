-- ===== src/Engines/Isolation.antt =====
-- internal/engines/manager.go: `ProcessAll` where an engine fails.
use cam_bus.Base.{
  true, String, Option, none, some, List, [], ◌∷◌, ◌++◌, All, ◌≡◌, refl, arith, ◌⊎◌, inl, inr,
  Bool-cases,
}
use mathlib.Core.List.{append_assoc}
use cam_bus.Core.{AnalyticEvent}
use cam_bus.Engines.{failed, panicked, Engine, enabled_engines, process_each, keep_derived}

-- The engine returns an error or panics for the event, whatever it has done to the world by then.
abbrev pub Fails : {W : Type 0} → Engine W → AnalyticEvent → W → Type 0
Fails e evt w =
    ((msg : String) × ((e.process evt w).0 ≡ failed msg)) ⊎ ((e.process evt w).0 ≡ panicked)

module _ {W : Type 0} where
  process_each-append :
      (es fs : List (Engine W)) (evt : AnalyticEvent) (w : W)
      → process_each (es ++ fs) evt w ≡ (
          let (out, w') = process_each es evt w in
          let (more, w'') = process_each fs evt w' in (out ++ more, w''))
  unfolding process_each
  process_each-append [] fs evt w = refl
  process_each-append (e ∷ es) fs evt w = elim (Bool-cases e.enabled) [
    | inl on ↦
        rw
          (
            on,
            process_each-append es fs evt (e.process evt w).1,
            append_assoc (keep_derived (e.process evt w).0)
                (process_each es evt (e.process evt w).1).0
                (process_each fs evt (process_each es evt (e.process evt w).1).1).0,
          )
          refl
    | inr off ↦ rw (off, process_each-append es fs evt w) refl
  ]

  process_each_failing :
      (fs : List (Engine W)) (e : Engine W) (evt : AnalyticEvent) (w : W)
      → e.enabled ≡ true
      → Fails e evt w
      → process_each (e ∷ fs) evt w ≡ process_each fs evt (e.process evt w).1
  unfolding process_each
  process_each_failing fs e evt w on (inl (_, q)) = rw (on, q) refl
  process_each_failing fs e evt w on (inr q) = rw (on, q) refl

  -- Where an enabled engine fails on an event, with an error or a panic, the events that are returned
  -- are those of the engines before it, followed by those that the engines after it return for the
  -- same event in the world that the failed engine has left; all of them run.
  pub process_each_without :
      (es fs : List (Engine W)) (e : Engine W) (evt : AnalyticEvent) (w : W)
      → e.enabled ≡ true
      → let (before, w₁) = process_each es evt w in
        Fails e evt w₁
        → let w₂ = (e.process evt w₁).1 in
          let (after, w₃) = process_each fs evt w₂ in
          process_each (es ++ (e ∷ fs)) evt w ≡ (before ++ after, w₃)
  process_each_without es fs e evt w on h =
      rw
        (
          process_each-append es (e ∷ fs) evt w,
          process_each_failing fs e evt (process_each es evt w).1 on h,
        )
        refl

  -- Every engine of a new manager is enabled.
  pub enabled_engines-enabled :
      (es : List (Option (Engine W))) → All (λ e. e.enabled ≡ true) (enabled_engines es)
  unfolding enabled_engines
  enabled_engines-enabled [] = tt
  enabled_engines-enabled (none ∷ es) = enabled_engines-enabled es
  enabled_engines-enabled (some e ∷ es) = ground (arith, enabled_engines-enabled es)
