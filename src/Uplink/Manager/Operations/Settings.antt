-- ===== src/Uplink/Manager/Operations/Settings.antt =====
-- What a start command does with the setting IGNORE_UPLINK and without it.
use cam_bus.Base.{
  Bool, true, false, String, Option, none, some, Result, ok, err, List, [], ◌∷◌, ◌==◌, ◌≡◌, refl,
  inl, inr, Option-cases, Bool-cases, if◌then◌else◌, ◌<>◌,
}
use cam_bus.Base.Dict.{Dict, lookup, lookup-insert}
use cam_bus.Base.Str.{trim_prefix}
use cam_bus.Uplink.Request.{Request, validate_start, key_for, same_request}
use cam_bus.Uplink.Container.Logs.{Failure}
use cam_bus.Uplink.Manager.{
  UplinkProcess, no_timer, Manager, Outside, put, resolve_request, is_nil, start_uplink,
  refresh_ttl, new_process, stop_process, started, with_candidates, try_candidates, start_new,
  start_again, runs_containers, container_name,
}
use cam_bus.Uplink.Manager.Operations.{start}

-- An entry without its timer and without the mark that it is always on.
abbrev pub bare : Option UplinkProcess → Option UplinkProcess
bare none = none
bare (some p) = some (record p { ttl_timer = no_timer; always_on = false })

-- The two results have the same error, have done the same outside, and hold the same uplinks but for
-- the timers and the marks.
abbrev pub SameStart :
    {W : Type 0} → Option String × Manager × W → Option String × Manager × W → Type 0
SameStart r r' =
    (r.0 ≡ r'.0)
    × (r.2 ≡ r'.2)
    × ((key : String) → bare (lookup key r.1.uplinks) ≡ bare (lookup key r'.1.uplinks))

abbrev AlmostSame : Dict UplinkProcess → Dict UplinkProcess → Type 0
AlmostSame u v = (key : String) → bare (lookup key u) ≡ bare (lookup key v)

abbrev setting : Manager → Bool → Dict UplinkProcess → Manager
setting m ignoring u = record m { ignore_uplink = ignoring; uplinks = u }

put-AlmostSame :
    (m n : Manager) (key : String) (p q : UplinkProcess)
    → AlmostSame m.uplinks n.uplinks
    → bare (some p) ≡ bare (some q)
    → AlmostSame (put m key p).uplinks (put n key q).uplinks
put-AlmostSame m n key p q h same j = elim (Bool-cases (key == j)) [
  | inl here ↦ simp (lookup-insert, here) same
  | inr other ↦ simp (lookup-insert, other) (h j)
]

module _ {W : Type 0} (o : Outside W) (m : Manager) (key : String) (req : Request) where
  started-SameStart :
      (u v : Dict UplinkProcess) (name : String) (a b : Bool) (r : Result Failure String) (w : W)
      → AlmostSame u v
      → SameStart
          (started o (setting m true u) key req name a r w)
          (started o (setting m false v) key req name b r w)
  unfolding started refresh_ttl new_process
  started-SameStart u v name a b (err f) w h = (refl, refl, h)
  started-SameStart u v name a b (ok id) w h =
      (refl, refl, put-AlmostSame (setting m true u) (setting m false v) key _ _ h refl)

  with_candidates-SameStart :
      (u v : Dict UplinkProcess) (a b : Bool) (c : Result String (List String)) (w : W)
      → AlmostSame u v
      → SameStart
          (with_candidates o (setting m true u) key req a c w)
          (with_candidates o (setting m false v) key req b c w)
  unfolding with_candidates
  with_candidates-SameStart u v a b (err e) w h = (refl, refl, h)
  with_candidates-SameStart u v a b (ok urls) w h =
      let name = container_name m.mode req.central_path in
      let proxy_url = m.proxy_rtsp_base <> "/" <> trim_prefix req.proxy_path "/" in
      let (r, w') = try_candidates o name proxy_url (if is_nil urls then "" ∷ [] else urls) w in
      elim (Bool-cases (runs_containers m.mode)) [
        | inl runs ↦ rw runs (started-SameStart u v name a b r w' h)
        | inr elsewhere ↦ rw elsewhere (started-SameStart u v name a b (ok "") w h)
      ]

  start_uplink-SameStart :
      (w : W)
      → SameStart
          (start_uplink o (setting m true m.uplinks) key req w)
          (start_uplink o (setting m false m.uplinks) key req w)
  unfolding start_uplink start_new start_again refresh_ttl stop_process
  start_uplink-SameStart w = elim (Option-cases (lookup key m.uplinks)) [
    | inl fresh ↦
        rw (fresh, start_uplink) (with_candidates-SameStart m.uplinks m.uplinks _ _ _ w (λ j. refl))
    | inr (p, found) ↦ elim (Bool-cases (same_request p.payload req)) [
      | inl same ↦
          rw (found, same, start_uplink) (refl, refl, put-AlmostSame m m key _ _ (λ j. refl) refl)
      | inr other ↦
          let (old, w') = stop_process o m p "restarting with new payload" w in
          let u = (put m key old).uplinks in
          rw (found, other, start_uplink) (with_candidates-SameStart u u _ _ _ w' (λ j. refl))
    ]
  ]

-- A start command does the same with the setting IGNORE_UPLINK and without it, for every request and
-- every state of the uplinks: it has the same error, does the same outside and leaves the same uplinks,
-- but for their timers and the marks of those that are always on.
pub start_not_ignored :
    {W : Type 0} (o : Outside W) (m : Manager) (given : Request) (w : W)
    → SameStart
        (start o (record m { ignore_uplink = true }) given w)
        (start o (record m { ignore_uplink = false }) given w)
unfolding start resolve_request
start_not_ignored o m given w =
    let req = resolve_request m given in
    elim (Option-cases (validate_start req)) [
      | inl good ↦ rw (good, start) (start_uplink-SameStart o m (key_for req) req w)
      | inr (e, bad) ↦ rw (bad, start) (refl, refl, λ j. refl)
    ]
