-- ===== src/Common/Runs.antt =====
-- Runs of loops on fuel, and total correctness of such a run.
use mathlib.Core.Path.{◌≡◌, refl}
use mathlib.Core.Bool.{Bool, true, false}
use mathlib.Core.Option.{Option, none, some}
use fast2016_ftl.Common.Tests.{if◌then◌else◌}

-- `none` means that the fuel ran out.
infixl 5 ◌>>=◌
abbrev pub ◌>>=◌ {ℓ κ} : {A : Type ℓ} {B : Type κ} → Option A → (A → Option B) → Option B
none >>= f = none
some a >>= f = f a

-- The run ends, in a value that satisfies `P`.
pub data Ends {ℓ κ} {A : Type ℓ} (P : A → Type κ) : Option A → Type (ℓ ⊔ κ) where
  ends : {a : A} → P a → Ends P (some a)

module _ {ℓ κ} {A : Type ℓ} {P : A → Type κ} where
  pub Ends-weaken {κ'} :
      {Q : A → Type κ'} {r : Option A} → Ends P r → ((a : A) → P a → Q a) → Ends Q r
  Ends-weaken (ends p) k = ends (k _ p)

  pub Ends-bind {ℓ' κ'} :
      {B : Type ℓ'} {Q : B → Type κ'} {r : Option A} {f : A → Option B}
      → Ends P r
      → ((a : A) → P a → Ends Q (f a))
      → Ends Q (r >>= f)
  Ends-bind (ends p) k = k _ p

  pub Ends-if :
      {x y : Option A} (b : Bool)
      → (b ≡ true → Ends P x)
      → (b ≡ false → Ends P y)
      → Ends P (if b then x else y)
  Ends-if true p q = p refl
  Ends-if false p q = q refl

-- Steps that follow each other.
pub >>=-assoc {ℓ} :
    {A B C : Type ℓ} (r : Option A) (f : A → Option B) (g : B → Option C)
    → ((r >>= f) >>= g) ≡ (r >>= λ a. f a >>= g)
>>=-assoc none f g = refl
>>=-assoc (some a) f g = refl

pub >>=-same {ℓ} :
    {A B : Type ℓ} (r : Option A) {f g : A → Option B}
    → ((a : A) → f a ≡ g a)
    → (r >>= f) ≡ (r >>= g)
>>=-same none h = refl
>>=-same (some a) h = h a
