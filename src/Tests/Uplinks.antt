-- ===== src/Tests/Uplinks.antt =====
-- Runs of the uplink manager.
use cam_bus.Base.{true, false, String, none, some, [], ◌∷◌, ◌≡◌, ◌≢◌, ◌↔◌, refl, arith}
use cam_bus.Base.Int.{pos}
use cam_bus.Base.Dict.{lookup, Entries}
use cam_bus.Uplink.Request.{Request, key_for, validate_start}
use cam_bus.Uplink.Manager.{
  mediamtx, UplinkProcess, start_uplink, stop_uplink, container_name, runs_containers,
}
use cam_bus.Uplink.Manager.Invariant.{Inv, IsSound, put-Inv}
use cam_bus.Uplink.Manager.Operations.{start_command, stop_command, timer, shutdown, run}
use cam_bus.Uplink.Manager.Operations.Invariant.{run-Inv}
use cam_bus.Uplink.Manager.Operations.Counting.{
  stop_times, stop_times_exact, uses, stop_uplink-start_uplink, timer_fires_leak,
}
use cam_bus.Uplink.Manager.Operations.Starting.{failed_restart_masks, Agree}
use cam_bus.Uplink.Manager.Operations.Settings.{start_not_ignored, SameStart}
use cam_bus.Uplink.Manager.{stopped, stop_timer, start_new, with_candidates}
use cam_bus.Uplink.Manager.Operations.{start, timer_fires}
use cam_bus.Base.Str.{trim_space, trim_slashes}
use cam_bus.Uplink.Srt.Candidates.{build_srt_url_candidates}
use cam_bus.Uplink.Srt.Host.{normalize_srt_inputs}
use cam_bus.Base.{◌≤◌, ◌+◌}
use cam_bus.Base.Dict.{insert}
use cam_bus.Uplink.Request.{same_request}
use cam_bus.Tests.Fixtures.{logging, request, running, empty_manager, one_uplink}

none-IsSound : Entries (IsSound mediamtx) empty_manager.uplinks
unfolding lookup
none-IsSound k p e = cc

empty-Inv : Inv mediamtx empty_manager
empty-Inv = record { same_mode = refl; distinct = tt; sound = none-IsSound }

running-IsSound : IsSound mediamtx "hq/gate" running
unfolding key_for validate_start container_name runs_containers
running-IsSound = record {
  keyed = refl;
  named = refl;
  complete = refl;
  counted = omega arith;
  contained = refl;
  identified = λ e. cc;
  quiet = tt;
}

one-Inv : Inv mediamtx one_uplink
one-Inv = put-Inv "hq/gate" running empty-Inv running-IsSound

run-Inv_example :
    Inv mediamtx
      (run logging one_uplink
        (start_command request ∷ (stop_command request ∷ (timer "hq/gate" ∷ (shutdown ∷ []))))
        []).0
run-Inv_example =
    run-Inv logging one_uplink
      (start_command request ∷ (stop_command request ∷ (timer "hq/gate" ∷ (shutdown ∷ [])))) []
      one-Inv

stop_times_exact_example :
    let m' = (stop_times logging 2 "hq/gate" "stop command" one_uplink []).0 in
    ((lookup "hq/gate" m'.uplinks ≡ none) ↔ (uses one_uplink "hq/gate" ≤ 2))
    × ((j : String) → j ≢ "hq/gate" → lookup j m'.uplinks ≡ lookup j one_uplink.uplinks)
stop_times_exact_example =
    stop_times_exact logging 2 "hq/gate" "stop command" one_uplink [] one-Inv refl

-- another request for the same uplink, with another proxy path
abbrev other_request : Request
other_request = record request { proxy_path = "gate-2" }

one_found : lookup "hq/gate" one_uplink.uplinks ≡ some running
unfolding lookup insert
one_found = refl

request_same : same_request running.payload request ≡ true
unfolding same_request
request_same = refl

stop_uplink-start_uplink_example :
    let (e, m₁, w₁) = start_uplink logging one_uplink "hq/gate" request [] in
    let (e', m₂, w₂) = stop_uplink logging m₁ "hq/gate" "stop command" w₁ in
    (e ≡ none)
    × (e' ≡ none)
    × (w₂ ≡ [])
    × (uses m₂ "hq/gate" ≡ uses one_uplink "hq/gate")
    × ((q : UplinkProcess) × (lookup "hq/gate" m₂.uplinks ≡ some q)
        × (q.payload ≡ running.payload)
        × (q.container ≡ running.container)
        × (q.container_id ≡ running.container_id)
        × (q.container_status ≡ running.container_status))
    × Agree "hq/gate" one_uplink m₂
stop_uplink-start_uplink_example =
    stop_uplink-start_uplink logging one_uplink "hq/gate" "stop command" running request [] one-Inv
      refl one_found request_same

timer_fires_leak_example :
    lookup "hq/gate" (timer_fires logging one_uplink "hq/gate" []).0.uplinks
    ≡ some (record running { stop_count = running.stop_count + 1; ttl_timer = stopped })
timer_fires_leak_example =
    timer_fires_leak logging one_uplink "hq/gate" running [] {ttl = pos 30} refl one_found refl
      (omega arith)

-- a request that no address can be built for
abbrev bad_request : Request
bad_request = record request { central_host = "" }

other_differs : same_request running.payload bad_request ≡ false
unfolding same_request
other_differs = refl

restart_fails :
    (start_uplink logging one_uplink "hq/gate" bad_request []).0
    ≡ some "build srt candidates: normalizar entradas SRT: host/path vazios"
unfolding start_uplink lookup insert same_request start_new build_srt_url_candidates
    normalize_srt_inputs with_candidates trim_space trim_slashes
restart_fails = refl

failed_restart_masks_example :
    let m' = (start_uplink logging one_uplink "hq/gate" bad_request []).1 in
    (lookup "hq/gate" m'.uplinks
      ≡ some (record running { ttl_timer = stop_timer running.ttl_timer }))
    × ((start_uplink logging m' "hq/gate" running.payload []).0 ≡ none)
    × ((start_uplink logging m' "hq/gate" running.payload []).2 ≡ [])
failed_restart_masks_example =
    failed_restart_masks logging one_uplink "hq/gate" running bad_request [] [] one_found
      other_differs restart_fails

start_not_ignored_example :
    SameStart
      (start logging (record one_uplink { ignore_uplink = true }) other_request [])
      (start logging (record one_uplink { ignore_uplink = false }) other_request [])
start_not_ignored_example = start_not_ignored logging one_uplink other_request []
