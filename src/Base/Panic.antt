-- ===== src/Base/Panic.antt =====
-- Code that may panic: `none` is a panic (or a loop that does not end), and `do` chains the steps.
use Prim.Native.Nat.{ℕ, ◌-◌, ◌≤◌}
use mathlib.Core.Path.{◌≡◌, refl}
use mathlib.Core.Bool.{Bool, true, false}
use mathlib.Core.Option.{Option, none, some}
use mathlib.Core.List.{List}
use native.Mathlib.Omega.{arith}
use capybara.Base.Lists.{length, take, drop}
use capybara.Base.Tests.{leb, if◌then◌else◌}

infixl 5 ◌>>=◌ ◌>>◌
abbrev pub ◌>>=◌ {ℓ κ} : {A : Type ℓ} {B : Type κ} → Option A → (A → Option B) → Option B
some a >>= f = f a
none >>= f = none

abbrev pub ◌>>◌ {ℓ} : {B : Type ℓ} → Option (Unit {0}) → Option B → Option B
m >> k = m >>= λ _. k

-- A test whose failure is a panic: an assertion, or a slice that must be long enough.
abbrev pub require : Bool → Option (Unit {0})
require good = if good then some tt else none

module _ {ℓ} {A : Type ℓ} where
  -- `Buffer::adjust`: drops bytes at the front, and panics past the end.
  unfoldable pub adjust : ℕ → List A → Option (List A)
  adjust n buf = if leb n (length buf) then some (drop n buf) else none

  -- `Buffer::trim`: drops bytes at the end, and panics past the beginning.
  unfoldable pub trim : ℕ → List A → Option (List A)
  trim n buf = if leb n (length buf) then some (take (length buf - n) buf) else none

  pub adjust_lem : (n : ℕ) (buf : List A) → n ≤ length buf → adjust n buf ≡ some (drop n buf)
  unfolding adjust
  adjust_lem n buf h = ground arith

  pub trim_lem :
      (n : ℕ) (buf : List A) → n ≤ length buf → trim n buf ≡ some (take (length buf - n) buf)
  unfolding trim
  trim_lem n buf h = ground arith

-- Inversion of a test and of a step that were passed.
pub require-eq_some {ℓ} :
    {A : Type ℓ} (good : Bool) (rest : Option A) {a : A}
    → (require good >> rest) ≡ some a
    → (good ≡ true) × (rest ≡ some a)
require-eq_some true rest e = (refl, e)
require-eq_some false rest e = cc

pub >>=-eq_some {ℓ κ} :
    {A : Type ℓ} {B : Type κ} (step : Option A) (rest : A → Option B) {b : B}
    → (step >>= rest) ≡ some b
    → (a : A) × (step ≡ some a) × (rest a ≡ some b)
>>=-eq_some (some a) rest e = (a, refl, e)
>>=-eq_some none rest e = cc
