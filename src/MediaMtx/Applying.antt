-- ===== src/MediaMtx/Applying.antt =====
-- What a server makes of the requests of `applyConfigViaAPI`.
use mathlib.Core.Option.{some-injective}
use cam_bus.Base.{
  true, false, String, Option, none, some, List, [], ◌∷◌, ◌++◌, ◌≡◌, ◌≢◌, refl, sym, ap, ◌∙◌, arith,
  Option-cases, inl, inr, if◌then◌else◌, eq_iff, eq_refl,
}
use cam_bus.Base.Dict.{Dict, lookup, insert, erase, NodupKeys, lookup-insert, lookup-erase}
use cam_bus.MediaMtx.Config.{Config, PathConfig, PathDefaults}
use cam_bus.MediaMtx.Sync.{
  GlobalPatch, ApiRequest, patch_global, patch_defaults, delete_path, replace_path, add_path,
  is_some, deletions, settings, plan, global_patch,
}

-- A MediaMTX server as its API shows it.
pub record Applied : Type 0 where
  pub global : GlobalPatch
  pub defaults : PathDefaults
  pub paths : Dict PathConfig

-- What the server does at a request. It refuses to add a path that it has, and to delete or replace
-- one that it has not.
unfoldable pub serve : ApiRequest → Applied → Option Applied
serve (patch_global g) a = some (record a { global = g })
serve (patch_defaults d) a = some (record a { defaults = d })
serve (delete_path name) a = elim (lookup name a.paths) [
  | none ↦ none
  | some _ ↦ some (record a { paths = erase name a.paths })
]
serve (replace_path name cfg) a = elim (lookup name a.paths) [
  | none ↦ none
  | some _ ↦ some (record a { paths = insert name cfg a.paths })
]
serve (add_path name cfg) a = elim (lookup name a.paths) [
  | none ↦ some (record a { paths = insert name cfg a.paths })
  | some _ ↦ none
]

abbrev and_then : Option Applied → (Applied → Option Applied) → Option Applied
and_then none f = none
and_then (some a) f = f a

unfoldable pub serve_all : List ApiRequest → Applied → Option Applied
unfolding serve
serve_all [] a = some a
serve_all (req ∷ reqs) a = and_then (serve req a) (λ b. serve_all reqs b)

-- The server has these paths.
abbrev pub Has : Applied → Dict PathConfig → Type 0
Has a paths = (k : String) → lookup k a.paths ≡ lookup k paths

-- `a` and `b` differ in their paths at most.
abbrev SameRest : Applied → Applied → Type 0
SameRest a b = (a.global ≡ b.global) × (a.defaults ≡ b.defaults)

serve_all-append :
    (xs ys : List ApiRequest) (a b c : Applied)
    → serve_all xs a ≡ some b
    → serve_all ys b ≡ some c
    → serve_all (xs ++ ys) a ≡ some c
unfolding serve_all
serve_all-append [] ys a b c e f = ap (serve_all ys) (some-injective a b e) ∙ f
serve_all-append (x ∷ xs) ys a b c e f = elim (Option-cases (serve x a)) [
  | inl refused ↦ let clash : none ≡ some b = rw (refused, serve_all) at e in cc
  | inr (a', done) ↦
      rw (done, serve_all) (serve_all-append xs ys a' b c (rw (done, serve_all) at e) f)
]

-- What the deletions leave.
abbrev kept : Option PathConfig → Option PathConfig → Option PathConfig
kept none now = none
kept (some _) now = now

serve-deletions :
    (existing desired : Dict PathConfig) (a : Applied)
    → NodupKeys existing
    → ((k : String) → lookup k existing ≢ none → lookup k a.paths ≢ none)
    → (b : Applied) × (serve_all (deletions existing desired) a ≡ some b)
      × SameRest a b
      × ((k : String)
          → lookup k b.paths ≡ (
              if is_some (lookup k existing)
              then kept (lookup k desired) (lookup k a.paths)
              else lookup k a.paths))
unfolding deletions serve_all serve lookup
serve-deletions [] desired a u h = (a, refl, (refl, refl), λ k. refl)
serve-deletions ((name, cfg) ∷ more) desired a (fresh, u) h =
    elim (Option-cases (lookup name desired)) [
      | inr (wanted, found) ↦
          let (b, served, rest, paths) =
            serve-deletions more desired a u (λ k e. h k (ground (arith, eq_iff name k, e))) in
          (
            b,
            rw (found, deletions) served,
            rest,
            λ k. ground (arith, eq_iff name k, fresh, found, paths k),
          )
      | inl unwanted ↦ elim (Option-cases (lookup name a.paths)) [
        | inl missing ↦ elim (h name (ground (arith, eq_refl name)) missing) [ ]
        | inr (there, found) ↦
            let a' : Applied = record a { paths = erase name a.paths } in
            let (b, served, rest, paths) =
              serve-deletions more desired a' u (λ k e.
                ground (arith, eq_iff name k, lookup-erase name k a.paths, fresh, h k, e)) in
            (
              b,
              rw (unwanted, deletions, serve_all, found, serve) served,
              rest,
              λ k.
                  ground
                    (arith, eq_iff name k, fresh, unwanted, lookup-erase name k a.paths, paths k),
            )
      ]
    ]

abbrev set_over : Option PathConfig → Option PathConfig → Option PathConfig
set_over none now = now
set_over (some cfg) now = some cfg

set_one :
    (existing more : Dict PathConfig) (name : String) (cfg : PathConfig) (a b : Applied)
    → is_some (lookup name a.paths) ≡ is_some (lookup name existing)
    → serve_all (settings existing more) (record a { paths = insert name cfg a.paths }) ≡ some b
    → serve_all (settings existing ((name, cfg) ∷ more)) a ≡ some b
unfolding settings serve_all serve
set_one existing more name cfg a b agree served = elim (Option-cases (lookup name existing)) [
  | inl absent ↦ elim (Option-cases (lookup name a.paths)) [
    | inl new ↦ rw (absent, settings, serve_all, new, serve) served
    | inr (now, there) ↦ let clash : true ≡ false = rw (absent, there) at agree in cc
  ]
  | inr (old, present) ↦ elim (Option-cases (lookup name a.paths)) [
    | inl new ↦ let clash : false ≡ true = rw (present, new) at agree in cc
    | inr (now, there) ↦ rw (present, settings, serve_all, there, serve) served
  ]
]

serve-settings :
    (existing desired : Dict PathConfig) (a : Applied)
    → NodupKeys desired
    → ((k : String)
        → lookup k desired ≢ none
        → is_some (lookup k a.paths) ≡ is_some (lookup k existing))
    → (b : Applied) × (serve_all (settings existing desired) a ≡ some b)
      × SameRest a b
      × ((k : String) → lookup k b.paths ≡ set_over (lookup k desired) (lookup k a.paths))
unfolding settings serve_all serve lookup
serve-settings existing [] a u h = (a, refl, (refl, refl), λ k. refl)
serve-settings existing ((name, cfg) ∷ more) a (fresh, u) h =
    let a' : Applied = record a { paths = insert name cfg a.paths } in
    let agree : is_some (lookup name a.paths) ≡ is_some (lookup name existing) =
      h name (ground (arith, eq_refl name)) in
    let (b, served, rest, paths) =
      serve-settings existing more a' u
        (λ k e. ground (arith, eq_iff name k, lookup-insert name k cfg a.paths, fresh, h k, e)) in
    (
      b,
      set_one existing more name cfg a b agree served,
      rest,
      λ k. ground (arith, eq_iff name k, fresh, lookup-insert name k cfg a.paths, paths k),
    )

-- Where neither configuration names a path twice: a server that has the paths of the old one serves every request of the plan, and has
-- afterwards the global settings, the path defaults and the paths of the new one, and no other path.
pub serve_all-plan :
    (existing desired : Config) (a : Applied)
    → NodupKeys existing.paths
    → NodupKeys desired.paths
    → Has a existing.paths
    → (b : Applied) × (serve_all (plan existing desired) a ≡ some b)
      × (b.global ≡ global_patch desired)
      × (b.defaults ≡ desired.path_defaults)
      × Has b desired.paths
unfolding plan serve_all serve
serve_all-plan existing desired a u d h =
    let a0 : Applied = record {
      global = global_patch desired;
      defaults = desired.path_defaults;
      paths = a.paths;
    } in
    let (a1, deleted, (same_global, same_defaults), left) =
      serve-deletions existing.paths desired.paths a0 u (λ k e. ground (arith, h k, e)) in
    let (b, set, (same_global', same_defaults'), paths) =
      serve-settings existing.paths desired.paths a1 d (λ k e. ground (arith, h k, left k, e)) in
    (
      b,
      serve_all-append (deletions existing.paths desired.paths)
          (settings existing.paths desired.paths) a0 a1 b deleted set,
      sym (same_global ∙ same_global'),
      sym (same_defaults ∙ same_defaults'),
      λ k. ground (arith, h k, left k, paths k),
    )
