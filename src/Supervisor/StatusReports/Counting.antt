-- ===== src/Supervisor/StatusReports/Counting.antt =====
-- internal/supervisor/supervisor.go: the counts of cameras per building in `publishStatuses`.
use cam_bus.Base.{
  ℕ, ◌+◌, ◌<◌, Bool, false, String, List, [], ◌∷◌, All, ◌==◌, ◌&&◌, any, ◌≡◌, refl, arith, if-rule,
  eq_iff, if◌then◌else◌, Distinct, Bool-cases, inl, inr,
}
use cam_bus.Core.{CameraInfo}
use cam_bus.Supervisor.{CameraWorker}
use cam_bus.Supervisor.StatusReports.{Building, count_camera, count_all}

abbrev is_in : String → String → CameraInfo → Bool
is_in tenant building info = info.tenant == tenant && info.building == building

-- How many of the workers have a camera of this building of this tenant.
abbrev pub workers_in : String → String → List CameraWorker → ℕ
workers_in tenant building [] = 0
workers_in tenant building (w ∷ ws) =
    (if is_in tenant building w.info then 1 else 0) + workers_in tenant building ws

-- What is counted for this building of this tenant.
abbrev pub count_of : String → String → List Building → ℕ
count_of tenant building [] = 0
count_of tenant building (b ∷ bs) =
    (if b.tenant == tenant && b.building == building then b.cameras else 0)
    + count_of tenant building bs

abbrev pub same_building : Building → Building → Bool
same_building a b = a.tenant == b.tenant && a.building == b.building

abbrev Counted : Building → Type 0
Counted b = 0 < b.cameras

count_of-count_camera :
    (tenant building : String) (info : CameraInfo) (bs : List Building)
    → count_of tenant building (count_camera info bs)
      ≡ (if is_in tenant building info then 1 else 0) + count_of tenant building bs
unfolding count_camera
count_of-count_camera tenant building info [] = ground arith
count_of-count_camera tenant building info (b ∷ bs) =
    elim (Bool-cases (b.tenant == info.tenant && b.building == info.building)) [
      | inl same ↦
          let one_tenant : b.tenant ≡ info.tenant =
            (eq_iff b.tenant info.tenant).0 (ground (arith, same)) in
          let one_building : b.building ≡ info.building =
            (eq_iff b.building info.building).0 (ground (arith, same)) in
          rw (same, one_tenant, one_building, count_camera) (ground arith)
      | inr other ↦
          rw (other, count_camera) (omega (arith, count_of-count_camera tenant building info bs))
    ]

any-count_camera :
    (b : Building) (info : CameraInfo) (bs : List Building)
    → any (λ c. same_building c b) bs ≡ false
    → (b.tenant == info.tenant && b.building == info.building) ≡ false
    → any (λ c. same_building c b) (count_camera info bs) ≡ false
unfolding count_camera
any-count_camera b info [] h other = ground (
  arith,
  other,
  eq_iff b.tenant info.tenant,
  eq_iff info.tenant b.tenant,
  eq_iff b.building info.building,
  eq_iff info.building b.building,
)
any-count_camera b info (c ∷ bs) h other =
    if-rule (λ r. any (λ c. same_building c b) r ≡ false)
      (c.tenant == info.tenant && c.building == info.building) (λ same. h)
      (λ _. ground (arith, h, any-count_camera b info bs))

count_camera-Distinct :
    (info : CameraInfo) (bs : List Building)
    → Distinct same_building bs
    → Distinct same_building (count_camera info bs)
unfolding count_camera
count_camera-Distinct info [] u = (refl, tt)
count_camera-Distinct info (b ∷ bs) (h, u) =
    if-rule (Distinct same_building) (b.tenant == info.tenant && b.building == info.building)
      (λ _. (h, u)) (λ other. (any-count_camera b info bs h other, count_camera-Distinct info bs u))

count_camera-Counted :
    (info : CameraInfo) (bs : List Building) → All Counted bs → All Counted (count_camera info bs)
unfolding count_camera
count_camera-Counted info [] p = (omega arith, tt)
count_camera-Counted info (b ∷ bs) (p, ps) =
    if-rule (All Counted) (b.tenant == info.tenant && b.building == info.building)
      (λ _. (omega arith, ps)) (λ _. (p, count_camera-Counted info bs ps))

count_all-Distinct :
    (ws : List CameraWorker) (bs : List Building)
    → Distinct same_building bs
    → All Counted bs
    → Distinct same_building (count_all ws bs) × All Counted (count_all ws bs)
unfolding count_all
count_all-Distinct [] bs u p = (u, p)
count_all-Distinct (w ∷ ws) bs u p =
    count_all-Distinct ws (count_camera w.info bs) (count_camera-Distinct w.info bs u)
      (count_camera-Counted w.info bs p)

count_of-count_all :
    (tenant building : String) (ws : List CameraWorker) (bs : List Building)
    → count_of tenant building (count_all ws bs)
      ≡ workers_in tenant building ws + count_of tenant building bs
unfolding count_all
count_of-count_all tenant building [] bs = omega arith
count_of-count_all tenant building (w ∷ ws) bs = omega (
  arith,
  count_of-count_all tenant building ws (count_camera w.info bs),
  count_of-count_camera tenant building w.info bs,
)

-- For every tenant and building, the count is the number of the workers whose camera is of this building
-- of this tenant; no building of a tenant is counted twice, and none is counted without a camera.
pub count_all_lem :
    (ws : List CameraWorker)
    → let bs = count_all ws [] in
      ((tenant building : String) → count_of tenant building bs ≡ workers_in tenant building ws)
      × Distinct same_building bs
      × All (λ b. 0 < b.cameras) bs
count_all_lem ws =
    let (distinct, counted) = count_all-Distinct ws [] tt tt in
    (λ tenant building. omega (arith, count_of-count_all tenant building ws []), distinct, counted)
