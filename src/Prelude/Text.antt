-- ===== src/Prelude/Text.antt =====
-- Texts as keys: the NUL character as a separator, and membership of a list of names.
use Prim.Native.Char.{Char, code}
use Prim.Native.String.{String, ◌∷◌}
use mathlib.Core.Path.{◌≡◌, refl, ap, ap₂}
use mathlib.Core.Bool.{Bool, true, false, ◌&&◌, ◌||◌, not}
use mathlib.Core.List.{List, []}
use native.Mathlib.Omega.{arith}
use text.Mathlib.Text.{◌==◌}
use phigraph.Prelude.Tests.{eqb}

abbrev pub nul : Char
nul = "\0"

-- No character of the text is NUL.
unfoldable pub nul_free : String → Bool
nul_free String.[] = true
nul_free (String.◌∷◌ c s) = not (eqb (code c) 0) && nul_free s

-- `x in names`
abbrev pub contains : List String → String → Bool
contains [] a = false
contains (List.◌∷◌ x xs) a = x == a || contains xs a

-- `f"{a}\0{b}"`
abbrev pub with_nul : String → String → String
with_nul String.[] b = nul ∷ b
with_nul (String.◌∷◌ c s) b = c ∷ with_nul s b

-- Joining is associative, so it does not tell where a text with a NUL in it ends.
pub with_nul_assoc : (a b c : String) → with_nul (with_nul a b) c ≡ with_nul a (with_nul b c)
with_nul_assoc String.[] b c = refl
with_nul_assoc (String.◌∷◌ x s) b c = ap (◌∷◌ x) (with_nul_assoc s b c)

-- Behind a text that is free of NUL the rest can be told.
pub with_nul-inj :
    (s t x y : String)
    → nul_free s ≡ true
    → nul_free t ≡ true
    → with_nul s x ≡ with_nul t y
    → (s ≡ t) × (x ≡ y)
unfolding nul_free
with_nul-inj String.[] String.[] x y hs ht e = (refl, cc)
with_nul-inj String.[] (String.◌∷◌ d t) x y hs ht e =
    let h : nul ≡ d = cc in absurd (ground (arith, ap code h))
with_nul-inj (String.◌∷◌ c s) String.[] x y hs ht e =
    let h : nul ≡ c = cc in absurd (ground (arith, ap code h))
with_nul-inj (String.◌∷◌ c s) (String.◌∷◌ d t) x y hs ht e =
    let rest = with_nul-inj s t x y (ground arith) (ground arith) (cc) in
    let h : c ≡ d = cc in (ap₂ ◌∷◌ h rest.0, rest.1)
