-- ===== src/Base/Bools.antt =====
-- Laws of the Boolean connectives.
use mathlib.Core.Path.{◌≡◌, refl}
use mathlib.Core.Bool.{Bool, true, false, ◌&&◌, ◌||◌}

pub or_assoc : (a b c : Bool) → (a || (b || c)) ≡ ((a || b) || c)
or_assoc true b c = refl
or_assoc false b c = refl

pub and_false : (a : Bool) → (a && false) ≡ false
and_false true = refl
and_false false = refl

pub and_true : (a : Bool) → (a && true) ≡ a
and_true true = refl
and_true false = refl

pub or_false : (a : Bool) → (a || false) ≡ a
or_false true = refl
or_false false = refl

pub or_and : (a b c : Bool) → ((a && c) || (b && c)) ≡ ((a || b) && c)
or_and true true true = refl
or_and true true false = refl
or_and true false true = refl
or_and true false false = refl
or_and false b c = refl

pub or_true : (a : Bool) → (a || true) ≡ true
or_true true = refl
or_true false = refl
