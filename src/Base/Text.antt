-- ===== src/Base/Text.antt =====
-- Texts, compared by a decision that computes.
use Prim.Native.String.{String}
use mathlib.Core.Path.{◌≡◌, sym}
use mathlib.Core.Bool.{Bool, true, false}
use text.Mathlib.Text.{◌==◌ as str_eq}
use text.Mathlib.TextEquality.{eq_iff}

decide_text : (a b : String) (t : Bool) → t ≡ str_eq a b → Dec (a ≡ b)
decide_text a b true e = yes ((eq_iff a b).0 (sym e))
decide_text a b false e = no (λ p. cc ((eq_iff a b).1 p))

unfoldable pub text_dec : Discrete String
unfolding decide_text
text_dec a b = decide_text a b (str_eq a b) (λ i. str_eq a b)
