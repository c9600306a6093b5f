-- ===== src/Uplink/Container/Args/Laws.antt =====
-- What is left of FFmpeg's arguments when an option is taken out.
use cam_bus.Base.{
  ◌≤◌, ◌<◌, Bool, true, false, String, ◌==◌, List, [], ◌∷◌, ◌≡◌, refl, arith, any, length,
}
use cam_bus.Uplink.Container.Args.{remove_from, remove_option_with_value}

abbrev pub has : String → List String → Bool
has option = any (λ arg. arg == option)

has-remove_from :
    (skip : Bool) (args : List String) (option : String)
    → has option (remove_from skip args option) ≡ false
unfolding remove_from
has-remove_from skip [] option = refl
has-remove_from true (arg ∷ args) option = has-remove_from false args option
has-remove_from false (arg ∷ args) option =
    ground (arith, has-remove_from true args option, has-remove_from false args option)

length-remove_from-le :
    (skip : Bool) (args : List String) (option : String)
    → length (remove_from skip args option) ≤ length args
unfolding remove_from
length-remove_from-le skip [] option = omega arith
length-remove_from-le true (arg ∷ args) option =
    omega (arith, length-remove_from-le false args option)
length-remove_from-le false (arg ∷ args) option =
    ground (arith, length-remove_from-le true args option, length-remove_from-le false args option)

remove_from-absent :
    (args : List String) (option : String)
    → has option args ≡ false
    → remove_from false args option ≡ args
unfolding remove_from
remove_from-absent [] option h = refl
remove_from-absent (arg ∷ args) option h = ground (arith, remove_from-absent args option)

length-remove_from-lt :
    (args : List String) (option : String)
    → has option args ≡ true
    → length (remove_from false args option) < length args
unfolding remove_from
length-remove_from-lt [] option h = cc
length-remove_from-lt (arg ∷ args) option h =
    ground (arith, length-remove_from-lt args option, length-remove_from-le true args option)

-- After `removeOptionWithValue` the option is nowhere among the arguments. Arguments that do not hold
-- it stay as they are, and where they hold it the list gets shorter: so the comparison of lengths in
-- `Start` tells whether the option was there.
pub remove_option_with_value_lem :
    (args : List String) (option : String)
    → let rest = remove_option_with_value args option in
      (has option rest ≡ false)
      × (has option args ≡ false → rest ≡ args)
      × (has option args ≡ true → length rest < length args)
unfolding remove_option_with_value
remove_option_with_value_lem args option = (
  has-remove_from false args option,
  remove_from-absent args option,
  length-remove_from-lt args option,
)
