-- ===== src/Uplink/Srt/Options/Laws.antt =====
-- internal/uplink/srt.go: the parameter sets that `srtOptionCandidates` returns.
use cam_bus.Base.{
  ◌≤◌, Bool, true, false, ◌&&◌, ◌≡◌, ◌≢◌, ◌↔◌, ap, arith, eq_iff, length, Distinct, Bool-cases, inl,
  inr,
}
use mathlib.Core.List.{head?}
use mathlib.Core.Option.{some}
use cam_bus.Base.Int.{int_eq_iff}
use cam_bus.Uplink.Srt.Options.{
  SrtQueryOptions, with_srt_defaults, srt_options_equal, stripped_of, default_latency_of,
  srt_option_candidates, bool_eq,
}

and-true_iff : (a b : Bool) → ((a && b) ≡ true) ↔ ((a ≡ true) × (b ≡ true))
and-true_iff a b = ground arith

bool_eq_iff : (a b : Bool) → (bool_eq a b ≡ true) ↔ (a ≡ b)
bool_eq_iff a b = ground arith

pub srt_options_equal_iff : (a b : SrtQueryOptions) → (srt_options_equal a b ≡ true) ↔ (a ≡ b)
unfolding srt_options_equal
srt_options_equal_iff a b = (
  λ h. let h' = simp (and-true_iff, int_eq_iff, bool_eq_iff, eq_iff) at h in cc,
  λ h. rw h (simp (and-true_iff, int_eq_iff, bool_eq_iff, eq_iff) (search depth 16)),
)

equal-eq_false : (a b : SrtQueryOptions) → a ≢ b → srt_options_equal a b ≡ false
equal-eq_false a b h = elim (Bool-cases (srt_options_equal a b)) [
  | inl same ↦ absurd (h ((srt_options_equal_iff a b).0 same))
  | inr other ↦ other
]

ne_of_equal-eq_false : (a b : SrtQueryOptions) → srt_options_equal a b ≡ false → a ≢ b
ne_of_equal-eq_false a b h e = let same = (srt_options_equal_iff a b).1 e in cc

-- The set with the default latency differs from the first one: the code does not compare the two.
default_latency-ne-base :
    (base : SrtQueryOptions)
    → srt_options_equal (default_latency_of (stripped_of base)) (stripped_of base) ≡ false
    → srt_options_equal (default_latency_of (stripped_of base)) base ≡ false
default_latency-ne-base base h =
    equal-eq_false (default_latency_of (stripped_of base)) base
      λ e. ne_of_equal-eq_false _ _ h (unfold stripped_of default_latency_of in ap stripped_of e)

-- Whatever the settings, the first set tried is the configured one with its defaults, at most three
-- more follow, and no set is tried twice.
pub srt_option_candidates-Distinct :
    (compat_enabled : Bool) (given : SrtQueryOptions)
    → let cs = srt_option_candidates compat_enabled given in
      Distinct srt_options_equal cs × (head? cs ≡ some (with_srt_defaults given)) × (length cs ≤ 4)
unfolding srt_option_candidates
srt_option_candidates-Distinct false given =
    ground (arith, default_latency-ne-base (with_srt_defaults given))
srt_option_candidates-Distinct true given =
    ground (arith, default_latency-ne-base (with_srt_defaults given))
