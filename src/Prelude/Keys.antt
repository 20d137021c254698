-- ===== src/Prelude/Keys.antt =====
-- Equality of texts as a decision.
use Prim.Native.Nat.{Ordering}
use Prim.Native.String.{String, compare}
use mathlib.Core.Path.{◌≡◌, refl}
use mathlib.Core.Bool.{Bool, true, false}
use text.Mathlib.Text.{◌==◌}
use text.Mathlib.TextEquality.{eq_iff}

decide_equal : (a b : String) (t : Bool) → (a == b) ≡ t → Dec (a ≡ b)
decide_equal a b true e = yes ((eq_iff a b).0 e)
decide_equal a b false e = no (λ p. cc ((eq_iff a b).1 p))

unfoldable pub string_discrete : Discrete String
unfolding decide_equal
string_discrete a b = decide_equal a b (a == b) refl

-- Go's `<` on texts compares bytes, as `compare` does.
abbrev pub text_before : String → String → Bool
text_before a b = elim (compare a b) [ Ordering.lt ↦ true | _ ↦ false ]
