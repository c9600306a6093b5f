-- ===== src/Uplink/Srt/Candidates/Laws.antt =====
-- Which addresses `BuildSRTURLCandidates` returns, and in which order.
use cam_bus.Base.{
  Bool, false, String, ◌==◌, ◌&&◌, ◌||◌, ok, List, [], ◌∷◌, ◌++◌, ◌≡◌, ◌≢◌, refl, arith, eq_iff,
  any, Distinct, ap,
}
use cam_bus.Base.Int.{ℤ}
use cam_bus.Uplink.Env.{Env, getenv_bool}
use cam_bus.Uplink.Srt.Options.{SrtQueryOptions, srt_options_from_env, srt_option_candidates}
use cam_bus.Uplink.Srt.Query.{UrlLib}
use cam_bus.Uplink.Srt.Host.{normalize_srt_inputs}
use cam_bus.Uplink.Srt.Candidates.{
  mem, is_valid_srt_url, build_srt_url_variants, add_candidate, add_all, add_options, or_no_url,
  build_srt_url_candidates,
}

any-append {ℓ} :
    {A : Type ℓ} (p : A → Bool) (xs ys : List A) → any p (xs ++ ys) ≡ (any p xs || any p ys)
any-append p [] ys = refl
any-append p (x ∷ xs) ys = ground (arith, any-append p xs ys)

-- The test that `Distinct` uses, on addresses.
abbrev pub text_eq : String → String → Bool
text_eq s t = t == s

abbrev pub DistinctUrls : List String → Type 0
DistinctUrls = Distinct (λ t s. t == s)

Distinct-snoc :
    (us : List String) (u : String)
    → DistinctUrls us
    → mem u us ≡ false
    → DistinctUrls (us ++ u ∷ [])
Distinct-snoc [] u _ _ = (refl, tt)
Distinct-snoc (v ∷ us) u (fresh, d) h =
    (rw any-append (ground (arith, eq_iff u v, eq_iff v u)), Distinct-snoc us u d (ground arith))

module _ (url : UrlLib) where
  mem-add_candidate :
      (u v : String) (us : List String)
      → mem u (add_candidate url us v) ≡ (mem u us || is_valid_srt_url url u && v == u)
  unfolding add_candidate
  mem-add_candidate u v us = ground (
    arith,
    eq_iff v u,
    any-append (λ t. t == u) us (v ∷ []),
    ap (is_valid_srt_url url) {x = v} {y = u},
    ap (λ t. mem t us) {x = v} {y = u},
  )

  add_candidate-Distinct :
      (us : List String) (v : String) → DistinctUrls us → DistinctUrls (add_candidate url us v)
  unfolding add_candidate
  add_candidate-Distinct us v d = ground (arith, Distinct-snoc us v d)

  mem-add_all :
      (u : String) (us vs : List String)
      → mem u (add_all url us vs) ≡ (mem u us || is_valid_srt_url url u && mem u vs)
  unfolding add_all
  mem-add_all u us [] = ground arith
  mem-add_all u us (v ∷ vs) =
      ground (arith, mem-add_all u (add_candidate url us v) vs, mem-add_candidate u v us)

  add_all-Distinct : (us vs : List String) → DistinctUrls us → DistinctUrls (add_all url us vs)
  unfolding add_all
  add_all-Distinct us [] d = d
  add_all-Distinct us (v ∷ vs) d =
      add_all-Distinct (add_candidate url us v) vs (add_candidate-Distinct us v d)

  module _ (host : String) (port : ℤ) (path : String) where
    abbrev pub of_some : String → List SrtQueryOptions → Bool
    of_some u = any (λ opts. mem u (build_srt_url_variants url host port path opts))

    mem-add_options :
        (u : String) (us : List String) (opts : List SrtQueryOptions)
        → mem u (add_options url host port path us opts)
          ≡ (mem u us || is_valid_srt_url url u && of_some u opts)
    unfolding add_options
    mem-add_options u us [] = ground arith
    mem-add_options u us (o ∷ opts) =
        let vs = build_srt_url_variants url host port path o in
        ground (arith, mem-add_options u (add_all url us vs) opts, mem-add_all u us vs)

    add_options-Distinct :
        (us : List String) (opts : List SrtQueryOptions)
        → DistinctUrls us
        → DistinctUrls (add_options url host port path us opts)
    unfolding add_options
    add_options-Distinct us [] d = d
    add_options-Distinct us (o ∷ opts) d =
        let vs = build_srt_url_variants url host port path o in
        add_options-Distinct (add_all url us vs) opts (add_all-Distinct us vs d)

  or_no_url_ok : (us vs : List String) → or_no_url url us ≡ ok vs → (us ≡ vs) × (vs ≢ [])
  or_no_url_ok [] vs e = cc
  or_no_url_ok (u ∷ us) vs e = (ground arith, λ h. cc)

  -- Where the host, the port and the path are accepted and candidates come back, there is at least
  -- one, none comes twice, and an address is among them exactly when it passes the validation and is
  -- a variant for one of the parameter sets.
  pub build_srt_url_candidates_lem :
      (env : Env) (host : String) (port : ℤ) (path : String) {h : String} {q : ℤ} {p : String}
      {urls : List String}
      → normalize_srt_inputs url host port path ≡ ok (h, q, p)
      → build_srt_url_candidates url env host port path ≡ ok urls
      → let sets =
          srt_option_candidates
            (getenv_bool env "UPLINK_SRT_COMPAT_PROFILE" false)
            (srt_options_from_env env) in
        (urls ≢ [])
        × DistinctUrls urls
        × ((u : String) → mem u urls ≡ (is_valid_srt_url url u && of_some h q p u sets))
  unfolding build_srt_url_candidates
  build_srt_url_candidates_lem env host port path {h} {q} {p} {urls} accepted e =
      let sets =
        srt_option_candidates (getenv_bool env "UPLINK_SRT_COMPAT_PROFILE" false)
          (srt_options_from_env env) in
      let (same, some_url) =
        or_no_url_ok (add_options url h q p [] sets) urls
          (rw (accepted, build_srt_url_candidates) at e) in
      (
        some_url,
        rw (← same) (add_options-Distinct h q p [] sets tt),
        λ u. rw (← same) (mem-add_options h q p u [] sets),
      )
