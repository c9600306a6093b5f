-- ===== src/Supervisor/Snapshots/Laws.antt =====
-- Where the snapshots of the cameras point.
use mathlib.Core.Option.{some-injective}
use cam_bus.Base.{
  true, String, Option, none, some, [], ◌∷◌, map, All, ◌≡◌, refl, ap, ◌∙◌, arith, if-rule,
  Option-cases, Bool-cases, inl, inr, ◌⊎◌, eq_iff, eq_refl,
}
use cam_bus.Base.Int.{pos}
use cam_bus.Base.Dict.{Dict, lookup, NodupKeys}
use cam_bus.Core.{CameraInfo}
use cam_bus.Supervisor.{Supervisor, UplinkState, is_active}
use cam_bus.Supervisor.Snapshots.{
  find_uplink_state, state_is_of, state_for, proxy_view, no_uplink, snapshot_for_proxy,
}

-- The camera is sent nowhere.
abbrev pub Nowhere : CameraInfo → Type 0
Nowhere v = (v.central_host ≡ "") × (v.central_path ≡ "") × (v.central_srt_port ≡ pos 0)

-- The camera is sent where the state of an active uplink says.
abbrev pub SentBy : Dict UplinkState → CameraInfo → Type 0
SentBy states v =
    (key : String) × (st : UplinkState) × (lookup key states ≡ some st)
    × (is_active st ≡ true)
    × (v.central_host ≡ st.central_host)
    × (v.central_path ≡ st.central_path)
    × (v.central_srt_port ≡ st.central_srt_port)

find_uplink_state-lookup :
    (info : CameraInfo) (states : Dict UplinkState) (st : UplinkState)
    → NodupKeys states
    → find_uplink_state info states ≡ some st
    → (key : String) × (lookup key states ≡ some st)
unfolding find_uplink_state lookup
find_uplink_state-lookup info [] st u e = cc
find_uplink_state-lookup info ((k, st') ∷ more) st (fresh, u) e =
    elim (Bool-cases (state_is_of info st')) [
      | inl here ↦ (k, rw (eq_refl k) (rw (here, find_uplink_state) at e))
      | inr later ↦
          let (key, found) =
            find_uplink_state-lookup info more st u (rw (later, find_uplink_state) at e) in
          (key, ground (arith, eq_iff k key, fresh, found))
    ]

state_for-lookup :
    (s : Supervisor) (key : String) (info : CameraInfo) (st : UplinkState)
    → NodupKeys s.uplink_states
    → state_for s key info ≡ some st
    → (k : String) × (lookup k s.uplink_states ≡ some st)
unfolding state_for
state_for-lookup s key info st u e = elim (Option-cases (lookup key s.uplink_states)) [
  | inl missing ↦ find_uplink_state-lookup info s.uplink_states st u (rw (missing, state_for) at e)
  | inr (own, found) ↦ elim (Bool-cases (is_active own)) [
    | inl active ↦
        let same : own ≡ st = some-injective own st (rw (found, active, state_for) at e) in
        (key, found ∙ ap some same)
    | inr ended ↦ elim (Option-cases (find_uplink_state info s.uplink_states)) [
      | inl none_found ↦
          let same : own ≡ st =
            some-injective own st (rw (found, ended, none_found, state_for) at e) in
          (key, found ∙ ap some same)
      | inr (other, other_found) ↦
          let same : other ≡ st =
            some-injective other st (rw (found, ended, other_found, state_for) at e) in
          find_uplink_state-lookup info s.uplink_states st u (other_found ∙ ap some same)
    ]
  ]
]

proxy_view-Sent :
    (states : Dict UplinkState) (info : CameraInfo) (o : Option UplinkState)
    → ((st : UplinkState) → o ≡ some st → (k : String) × (lookup k states ≡ some st))
    → Nowhere (proxy_view info o) ⊎ SentBy states (proxy_view info o)
unfolding proxy_view no_uplink
proxy_view-Sent states info none h = inl (refl, refl, refl)
proxy_view-Sent states info (some st) h =
    let (k, found) = h st refl in
    if-rule (λ v. Nowhere v ⊎ SentBy states v) (is_active st)
      (λ active. inr (k, st, found, active, refl, refl, refl)) (λ _. inl (refl, refl, refl))

views-Sent :
    (s : Supervisor) (cameras : Dict CameraInfo)
    → NodupKeys s.uplink_states
    → All
        (λ v. Nowhere v ⊎ SentBy s.uplink_states v)
        (map (λ (key, info). proxy_view info (state_for s key info)) cameras)
views-Sent s [] u = tt
views-Sent s ((key, info) ∷ more) u = (
  proxy_view-Sent s.uplink_states info (state_for s key info)
      (λ st e. state_for-lookup s key info st u e),
  views-Sent s more u,
)

-- Where the keys of the uplinks' states are distinct, the proxy's configuration sends a camera to a
-- central server only as the state of an active uplink says.
pub snapshot_for_proxy-SentBy :
    (s : Supervisor)
    → NodupKeys s.uplink_states
    → All (λ v. Nowhere v ⊎ SentBy s.uplink_states v) (snapshot_for_proxy s)
unfolding snapshot_for_proxy
snapshot_for_proxy-SentBy s u = views-Sent s s.cameras u
