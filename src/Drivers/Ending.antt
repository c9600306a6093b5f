-- ===== src/Drivers/Ending.antt =====
-- internal/drivers/hikvision.go and dahua.go: how a connection and `Run` end.
use mathlib.Core.Path.{subst}
use cam_bus.Base.{
  ℕ, zero, suc, true, false, String, Option, none, some, ◌≡◌, ◌↔◌, refl, inl, inr, Bool-cases,
  Option-cases, arith,
}
use cam_bus.Base.State.{St}
use cam_bus.Core.{AnalyticEvent}
use cam_bus.Drivers.{ConnectionState, connecting, online, offline, not_established}
use cam_bus.Drivers.Camera.{Camera}
use cam_bus.Drivers.Keeping.{Keeps}
use cam_bus.Drivers.Rounds.{round, rounds}

-- The states of a camera that is not connected.
abbrev pub IsDown : ConnectionState → Type 0
IsDown offline = Unit
IsDown not_established = Unit
IsDown online = ⊥
IsDown connecting = ⊥

module _ {W : Type 0} (C : W → Type 0) (cam : Camera W) where
  -- `C` says that the context is done: nothing takes that back, and it is why a send or a wait is cut
  -- short and why `ctx.Err()` is not nil.
  pub record IsContext : Type 0 where
    pub stays : Keeps C (λ _. Unit {0}) cam
    pub cut_emit : (evt : AnalyticEvent) (w : W) → (cam.emit evt w).0 ≡ false → C (cam.emit evt w).1
    pub cut_wait : (w : W) → (cam.wait w).0 ≡ false → C (cam.wait w).1
    pub done_iff : (w : W) → ((cam.cancelled w).0 ≡ true) ↔ C (cam.cancelled w).1

  -- The context stays done whatever events are sent.
  pub stays_for : (Ok : AnalyticEvent → Type 0) → IsContext → Keeps C Ok cam
  stays_for Ok context = record {
    send = context.stays.send;
    random = context.stays.random;
    now = context.stays.now;
    notify = context.stays.notify;
    emit = λ evt w _ c. context.stays.emit evt w tt c;
    save = context.stays.save;
    cancelled = context.stays.cancelled;
    wait = context.stays.wait;
  }

  -- The last thing that was done is to report a state in which the camera is not connected.
  abbrev pub ReportedDown : W → Type 0
  ReportedDown w =
      (state : ConnectionState) × (reason : String) × (w₀ : W) × (w
        ≡ cam.notify (record { state = state; reason = reason }) w₀)
      × IsDown state

  -- How a connection ends: without an error where the context is done, else with the camera reported
  -- as not connected.
  abbrev pub Ended : Option String × W → Type 0
  Ended (none, w) = C w
  Ended (some _, w) = ReportedDown w

  module _ (context : IsContext) (once : St W (Option String))
      (once_keeps : (w : W) → C w → C (once w).1) (once-Ended : (w : W) → Ended (once w)) where
    round_done : (w : W) → (round cam once w).0 ≡ true → C (round cam once w).1
    unfolding round
    round_done w = elim (Option-cases (once w).0) [
      | inl none_left ↦
          rw (none_left, round) (λ _. subst (λ r. Ended (r, (once w).1)) none_left (once-Ended w))
      | inr (_, failed) ↦
          let w₁ = (once w).1 in
          let w₂ = (cam.cancelled w₁).1 in
          rw (failed, round)
            (elim (Bool-cases (cam.cancelled w₁).0) [
              | inl done ↦ rw done (λ _. (context.done_iff w₁).0 done)
              | inr open_yet ↦ rw open_yet (λ cut. context.cut_wait w₂ (ground (arith, cut)))
            ])
    ]

    done_round : (w : W) → C w → (round cam once w).0 ≡ true
    unfolding round
    done_round w c = elim (Option-cases (once w).0) [
      | inl none_left ↦ rw (none_left, round) refl
      | inr (_, failed) ↦
          let w₁ = (once w).1 in
          let done = (context.done_iff w₁).1 (context.stays.cancelled w₁ (once_keeps w c)) in
          rw (failed, round, done) refl
    ]

    pub rounds_done : (n : ℕ) (w : W) → (rounds cam once n w).0 ≡ true → C (rounds cam once n w).1
    unfolding rounds
    rounds_done zero w = λ h. cc
    rounds_done (suc n) w = elim (Bool-cases (round cam once w).0) [
      | inl done ↦ rw (done, rounds) (λ _. round_done w done)
      | inr more ↦ rw (more, rounds) (rounds_done n _)
    ]

    pub done_rounds :
        (n : ℕ) (w : W) → C (rounds cam once n w).1 → (rounds cam once (suc n) w).0 ≡ true
    unfolding rounds
    done_rounds zero w = λ c. ground (arith, done_round w c)
    done_rounds (suc n) w = elim (Bool-cases (round cam once w).0) [
      | inl done ↦ rw (done, rounds) (λ _. refl)
      | inr more ↦ rw (more, rounds) (done_rounds n _)
    ]
