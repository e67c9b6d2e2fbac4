-- ===== src/Base/Results.antt =====
-- Chains of steps that may fail, and assertions.
use mathlib.Core.Bool.{Bool, true, false}
use mathlib.Core.Option.{Option, none, some, none-ne-some}
use mathlib.Core.Path.{◌≡◌, refl}

infixl 5 ◌>>=◌
abbrev pub ◌>>=◌ : {A B : Type 0} → Option A → (A → Option B) → Option B
none >>= f = none
some a >>= f = f a

-- An assertion of the source: it fails, or the code goes on.
abbrev pub assert : Bool → Option (Unit {0})
assert true = some tt
assert false = none

abbrev pub ◌>>◌ : {B : Type 0} → Option (Unit {0}) → Option B → Option B
m >> k = m >>= λ _. k

infixl 5 ◌>>◌
pub bind-some :
    {A B : Type 0} (o : Option A) (f : A → Option B) (b : B)
    → (o >>= f) ≡ some b
    → (a : A) × (o ≡ some a) × (f a ≡ some b)
bind-some none f b h = absurd (none-ne-some b h)
bind-some (some a) f b h = (a, refl, h)

pub assert-runs :
    {B : Type 0} (t : Bool) (o : Option B) (b : B) → (assert t >> o) ≡ some b → o ≡ some b
assert-runs true o b h = h
assert-runs false o b h = absurd (none-ne-some b h)
