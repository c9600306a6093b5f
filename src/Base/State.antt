-- ===== src/Base/State.antt =====
-- Code that acts on the outside world `W`: what it returns, and the world afterwards.
use mathlib.Core.Path.{◌≡◌, refl}
use mathlib.Core.Bool.{Bool, true, false}
use cam_bus.Base.Tests.{if◌then◌else◌}

abbrev pub St {ℓ κ} : Type ℓ → Type κ → Type (ℓ ⊔ κ)
St W A = W → A × W

infixl 5 ◌>>=◌ ◌>>◌
abbrev pub ◌>>=◌ {ℓ κ μ} : {W : Type ℓ} {A : Type κ} {B : Type μ} → St W A → (A → St W B) → St W B
◌>>=◌ m f w = let (a, w') = m w in f a w'

abbrev pub ◌>>◌ {ℓ κ μ} : {W : Type ℓ} {A : Type κ} {B : Type μ} → St W A → St W B → St W B
◌>>◌ m k w = let (_, w') = m w in k w'

abbrev pub return {ℓ κ} : {W : Type ℓ} {A : Type κ} → A → St W A
return a w = (a, w)

-- What holds of the world after both branches holds of it after the whole.
pub if_keeps {ℓ κ μ} :
    {W : Type ℓ} {A : Type κ} (P : W → Type μ) (b : Bool) (x y : A × W)
    → (b ≡ true → P x.1)
    → (b ≡ false → P y.1)
    → P (if b then x else y).1
if_keeps P true x y h k = h refl
if_keeps P false x y h k = k refl
