-- ===== src/Base/Str/Digits.antt =====
-- The characters of decimal numbers.
use Prim.Native.Nat.{ℕ, zero, suc, ◌/◌, ◌%◌, ◌<◌, ◌+◌}
use Prim.Native.String.{char_at}
use mathlib.Core.Logic.{inl, inr}
use mathlib.Core.Path.{◌≡◌, refl}
use mathlib.Core.Bool.{false}
use native.Mathlib.Omega.{arith}
use cam_bus.Base.Tests.{ltb, if-rule, Bool-cases}
use cam_bus.Base.Int.{ℤ, pos, negsuc}
use cam_bus.Base.Str.{is_char}
use cam_bus.Base.Str.Split.{Without, Without-append}
use cam_bus.Base.Str.Decimal.{show_nat, show_from, digit, show_int}
use cam_bus.Base.Str.Hex.{show_two, show_four}

-- The digit is no slash.
abbrev IsPlain : ℕ → Type 0
IsPlain d = is_char b'/' (char_at "0123456789" d) ≡ false

abbrev PlainDigits : ℕ → Type 0
PlainDigits zero = Unit
PlainDigits (suc count) = IsPlain count × PlainDigits count

digit-IsPlain : (count d : ℕ) → PlainDigits count → d < count → IsPlain d
digit-IsPlain zero d plain small = absurd (omega arith)
digit-IsPlain (suc count) d (last, others) small = elim (Bool-cases (ltb d count)) [
  | inl lower ↦ digit-IsPlain count d others (ground (arith, lower))
  | inr highest ↦ let same : d ≡ count = ground (arith, highest) in rw same last
]

small-no_slash : (n : ℕ) → n < 10 → IsPlain n
small-no_slash n small =
    digit-IsPlain 10 n
      (refl, (refl, (refl, (refl, (refl, (refl, (refl, (refl, (refl, (refl, tt)))))))))) small

show_from-no_slash : (f n : ℕ) → Without b'/' (show_from f n)
unfolding show_from
show_from-no_slash zero n = tt
show_from-no_slash (suc f) n =
    if-rule (Without b'/') (ltb n 10) (λ small. (small-no_slash n (ground (arith, small)), tt))
      (λ _.
        Without-append b'/' (show_from f (n / 10)) (digit (n % 10)) (show_from-no_slash f (n / 10))
          (small-no_slash (n % 10) (omega arith), tt))

show_nat-no_slash : (n : ℕ) → Without b'/' (show_nat n)
unfolding show_nat
show_nat-no_slash n = show_from-no_slash 20 n

pub show_int-no_slash : (n : ℤ) → Without b'/' (show_int n)
unfolding show_int
show_int-no_slash (pos n) = show_nat-no_slash n
show_int-no_slash (negsuc n) =
    Without-append b'/' "-" (show_nat (n + 1)) (refl, tt) (show_nat-no_slash (n + 1))

pub show_two-no_slash : (n : ℕ) → Without b'/' (show_two n)
unfolding show_two
show_two-no_slash n =
    if-rule (Without b'/') (ltb n 10)
      (λ _. Without-append b'/' "0" (show_nat n) (refl, tt) (show_nat-no_slash n))
      (λ _. show_nat-no_slash n)

pub show_four-no_slash : (n : ℕ) → Without b'/' (show_four n)
unfolding show_four
show_four-no_slash n =
    if-rule (Without b'/') (ltb n 100)
      (λ _. Without-append b'/' "00" (show_two n) (refl, (refl, tt)) (show_two-no_slash n))
      λ _.
        if-rule (Without b'/') (ltb n 1000)
          (λ _. Without-append b'/' "0" (show_nat n) (refl, tt) (show_nat-no_slash n))
          (λ _. show_nat-no_slash n)
