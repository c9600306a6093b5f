-- ===== src/Uplink/Manager/Operations/Counting.antt =====
-- internal/uplink/manager.go: how starts, stops and TTLs of an uplink are counted.
use cam_bus.Base.{
  ℕ, zero, suc, ◌+◌, ◌-◌, ◌<◌, ◌≤◌, true, false, String, Option, none, some, ◌==◌, leb, ◌↔◌,
  if◌then◌else◌, ◌≡◌, ◌≢◌, refl, arith, eq_iff, eq_refl, Bool-cases, Option-cases, inl, inr, ◌∙◌,
  sym, ap,
}
use cam_bus.Base.Int.{ℤ}
use cam_bus.Base.Dict.{lookup, lookup-insert, lookup-erase}
use cam_bus.Uplink.Request.{Request, same_request}
use cam_bus.Uplink.Manager.{
  Mode, stopped, armed, UplinkProcess, Manager, Outside, put, stop_timer, start_uplink, stop_uplink,
  refresh_ttl, is_always_on_request, start_again,
}
use cam_bus.Uplink.Manager.Invariant.{Inv, stop_uplink-Inv}
use cam_bus.Uplink.Manager.Operations.Starting.{Agree, put-Agree, put-lookup, start_uplink_same}
use cam_bus.Uplink.Manager.Operations.{timer_fires, spend_timer}

abbrev uses_of : Option UplinkProcess → ℕ
uses_of none = 0
uses_of (some p) = p.start_count - p.stop_count

-- what a stop leaves of a process
abbrev remaining : Option UplinkProcess → Option UplinkProcess
remaining none = none
remaining (some p) =
    if leb p.start_count (p.stop_count + 1)
    then none
    else some (record p { stop_count = p.stop_count + 1 })

uses-remaining : (p : Option UplinkProcess) → uses_of (remaining p) ≡ uses_of p - 1
uses-remaining none = omega arith
uses-remaining (some p) = ground arith

-- How many starts of the uplink with this key no stop has answered yet; 0 where there is none.
abbrev pub uses : Manager → String → ℕ
uses m key = uses_of (lookup key m.uplinks)

none_of_unused :
    {mode : Mode} (m : Manager) (key : String)
    → Inv mode m
    → uses m key ≡ 0
    → lookup key m.uplinks ≡ none
none_of_unused m key v unused = elim (Option-cases (lookup key m.uplinks)) [
  | inl missing ↦ missing
  | inr (p, found) ↦
      let counted = (v.sound key p found).counted in
      let u : p.start_count - p.stop_count ≡ 0 = ap uses_of (sym found) ∙ unused in
      absurd (omega arith)
]

module _ {W : Type 0} (o : Outside W) where
  -- `Stop` again and again
  abbrev pub stop_times : ℕ → String → String → Manager → W → Manager × W
  stop_times zero key reason m w = (m, w)
  stop_times (suc n) key reason m w =
      let (_, m', w') = stop_uplink o m key reason w in stop_times n key reason m' w'

  ignore_uplink-stop_uplink :
      (m : Manager) (key reason : String) (w : W)
      → (stop_uplink o m key reason w).1.ignore_uplink ≡ m.ignore_uplink
  unfolding stop_uplink
  ignore_uplink-stop_uplink m key reason w = ground arith

  lookup-stop_uplink :
      (m : Manager) (key reason j : String) (w : W)
      → m.ignore_uplink ≡ false
      → lookup j (stop_uplink o m key reason w).1.uplinks
        ≡ (if key == j then remaining (lookup key m.uplinks) else lookup j m.uplinks)
  unfolding stop_uplink
  lookup-stop_uplink m key reason j w active = elim (Option-cases (lookup key m.uplinks)) [
    | inl missing ↦ ground (arith, eq_iff key j, ap (λ k. lookup k m.uplinks) {x = key} {y = j})
    | inr (p, found) ↦ elim (Bool-cases (leb p.start_count (p.stop_count + 1))) [
      | inl last ↦ ground (arith, lookup-erase key j m.uplinks)
      | inr more ↦
          ground (arith, lookup-insert key j (record p { stop_count = p.stop_count + 1 }) m.uplinks)
    ]
  ]

  uses-stop_uplink :
      (m : Manager) (key reason : String) (w : W)
      → m.ignore_uplink ≡ false
      → uses (stop_uplink o m key reason w).1 key ≡ uses m key - 1
  uses-stop_uplink m key reason w active =
      ap uses_of (lookup-stop_uplink m key reason key w active)
      ∙ ap (λ b. uses_of (if b then remaining (lookup key m.uplinks) else lookup key m.uplinks))
          (eq_refl key)
      ∙ uses-remaining (lookup key m.uplinks)

  -- Unless stops are ignored, n stops take n from the starts that are not answered, and leave the
  -- other uplinks alone.
  stop_times_lem :
      (n : ℕ) (key reason : String) (m : Manager) (w : W)
      → m.ignore_uplink ≡ false
      → let m' = (stop_times n key reason m w).0 in
        (uses m' key ≡ uses m key - n)
        × ((j : String) → j ≢ key → lookup j m'.uplinks ≡ lookup j m.uplinks)
  stop_times_lem zero key reason m w active = (omega arith, λ j other. refl)
  stop_times_lem (suc n) key reason m w active =
      let (_, m', w') = stop_uplink o m key reason w in
      let (fewer, kept) =
        stop_times_lem n key reason m' w' (ignore_uplink-stop_uplink m key reason w ∙ active) in
      (
        omega (arith, fewer, uses-stop_uplink m key reason w active),
        λ j other.
            kept j other ∙ ground (arith, lookup-stop_uplink m key reason j w active, eq_iff key j),
      )

  stop_times-Inv :
      {mode : Mode} (n : ℕ) (key reason : String) (m : Manager) (w : W)
      → Inv mode m
      → Inv mode (stop_times n key reason m w).0
  stop_times-Inv zero key reason m w v = v
  stop_times-Inv (suc n) key reason m w v =
      let (_, m', w') = stop_uplink o m key reason w in
      stop_times-Inv n key reason m' w' (stop_uplink-Inv o key reason w v)

  -- In a sound state with stops not ignored, an uplink that runs with k unanswered starts is still
  -- there after fewer than k stops, and is gone after k; the other uplinks stay as they are.
  pub stop_times_exact :
      {mode : Mode} (n : ℕ) (key reason : String) (m : Manager) (w : W)
      → Inv mode m
      → m.ignore_uplink ≡ false
      → let m' = (stop_times n key reason m w).0 in
        ((lookup key m'.uplinks ≡ none) ↔ (uses m key ≤ n))
        × ((j : String) → j ≢ key → lookup j m'.uplinks ≡ lookup j m.uplinks)
  stop_times_exact n key reason m w v active =
      let (left, kept) = stop_times_lem n key reason m w active in
      let m' = (stop_times n key reason m w).0 in
      (
        (
          λ gone. omega (arith, left, ap uses_of gone),
          λ enough. none_of_unused m' key (stop_times-Inv n key reason m w v) (omega (arith, left)),
        ),
        kept,
      )

  -- a stop that another start still keeps up
  stop_uplink_more :
      (m : Manager) (key reason : String) (p : UplinkProcess) (w : W)
      → m.ignore_uplink ≡ false
      → lookup key m.uplinks ≡ some p
      → p.stop_count + 1 < p.start_count
      → stop_uplink o m key reason w
        ≡ (none, put m key (record p { stop_count = p.stop_count + 1 }), w)
  unfolding stop_uplink
  stop_uplink_more m key reason p w active found more =
      let short : leb p.start_count (p.stop_count + 1) ≡ false = ground (arith, more) in
      simp (active, found, short)

  -- In a sound state with stops not ignored, a start that matches an uplink which runs, and then a stop
  -- of it, both succeed and do nothing outside. The uplink is there as before, with its request, its
  -- container and as many unanswered starts; the other uplinks stay as they are.
  pub stop_uplink-start_uplink :
      {mode : Mode} (m : Manager) (key reason : String) (p : UplinkProcess) (req : Request) (w : W)
      → Inv mode m
      → m.ignore_uplink ≡ false
      → lookup key m.uplinks ≡ some p
      → same_request p.payload req ≡ true
      → let (e, m₁, w₁) = start_uplink o m key req w in
        let (e', m₂, w₂) = stop_uplink o m₁ key reason w₁ in
        (e ≡ none)
        × (e' ≡ none)
        × (w₂ ≡ w)
        × (uses m₂ key ≡ uses m key)
        × ((q : UplinkProcess) × (lookup key m₂.uplinks ≡ some q)
            × (q.payload ≡ p.payload)
            × (q.container ≡ p.container)
            × (q.container_id ≡ p.container_id)
            × (q.container_status ≡ p.container_status))
        × Agree key m m₂
  unfolding start_again refresh_ttl
  stop_uplink-start_uplink m key reason p req w v active found same =
      let p₁ =
        refresh_ttl m
          (record p { start_count = p.start_count + 1; always_on = is_always_on_request m req })
          req.ttl_seconds in
      let q = record p₁ { stop_count = p₁.stop_count + 1 } in
      let m₁ = put m key p₁ in
      let counted = (v.sound key p found).counted in
      let started : start_uplink o m key req w ≡ (none, m₁, w) =
        start_uplink_same o m key p req w found same in
      let stopped_again =
        stop_uplink_more m₁ key reason p₁ w active (put-lookup m key p₁) (omega (arith, counted)) in
      rw started (
        rw stopped_again (
          refl,
          refl,
          refl,
          ap uses_of (put-lookup m₁ key q) ∙ omega (arith, counted) ∙ ap uses_of (sym found),
          (q, put-lookup m₁ key q, refl, refl, refl, refl),
          put-Agree m m₁ key q (put-Agree m m key p₁ (λ j _. refl)),
        ))

  -- A TTL that ends, with stops not ignored, is one stop: an uplink with more than one unanswered start
  -- outlives it, and has no timer that could still end it.
  pub timer_fires_leak :
      (m : Manager) (key : String) (p : UplinkProcess) (w : W) {ttl : ℤ}
      → m.ignore_uplink ≡ false
      → lookup key m.uplinks ≡ some p
      → p.ttl_timer ≡ armed ttl
      → p.stop_count + 1 < p.start_count
      → lookup key (timer_fires o m key w).0.uplinks
        ≡ some (record p { stop_count = p.stop_count + 1; ttl_timer = stopped })
  unfolding timer_fires
  timer_fires_leak m key p w {ttl} active found timed more =
      let p₁ = record p { ttl_timer = stop_timer p.ttl_timer } in
      let m₁ = put m key p₁ in
      let after = lookup-stop_uplink m₁ key "ttl expired" key w active in
      let spent : spend_timer o m key ≡ m₁ = rw (found, spend_timer) in
      ap (λ n. lookup key (stop_uplink o n key "ttl expired" w).1.uplinks) spent
      ∙ after
      ∙ simp (eq_refl, lookup-insert) (ground arith)
