-- ===== src/Prelude/Order.antt =====
-- Total orders, as Python's `sorted` compares: numbers, texts (by code point), tuples.
use Prim.Native.Nat.{ℕ}
use Prim.Native.Char.{code}
use Prim.Native.String.{String, ◌∷◌}
use mathlib.Core.Path.{◌≡◌, refl, ap₂}
use mathlib.Core.Bool.{Bool, true, false}
use native.Mathlib.Omega.{arith}
use text.Mathlib.TextEquality.{Char-path}
use phigraph.Prelude.Tests.{leb, if◌then◌else◌}

-- A decidable total order: `le a b` is the test `a <= b`.
pub record Order {ℓ} (A : Type ℓ) : Type ℓ where
  pub le : A → A → Bool
  pub refl_le : (a : A) → le a a ≡ true
  pub total : (a b : A) → le a b ≡ false → le b a ≡ true
  pub trans : (a b c : A) → le a b ≡ true → le b c ≡ true → le a c ≡ true
  pub antisym : (a b : A) → le a b ≡ true → le b a ≡ true → a ≡ b

pub nat_total : (a b : ℕ) → leb a b ≡ false → leb b a ≡ true
nat_total a b h = ground arith

pub nat_trans : (a b c : ℕ) → leb a b ≡ true → leb b c ≡ true → leb a c ≡ true
nat_trans a b c h k = ground arith

pub nat_antisym : (a b : ℕ) → leb a b ≡ true → leb b a ≡ true → a ≡ b
nat_antisym a b h k = ground arith

pub nat_refl : (a : ℕ) → leb a a ≡ true
nat_refl a = ground arith

abbrev pub nat_order : Order ℕ
nat_order = record {
  le = leb;
  refl_le = nat_refl;
  total = nat_total;
  trans = nat_trans;
  antisym = nat_antisym;
}

-- The first difference decides.
abbrev pub lex_le : Bool → Bool → Bool → Bool
lex_le ab ba rest = if ab then (if ba then rest else true) else false

module _ {ℓ κ} {A : Type ℓ} {B : Type κ} (o : Order A) (p : Order B) where
  abbrev pub pair_le : A × B → A × B → Bool
  pair_le (a, b) (c, d) = lex_le (o.le a c) (o.le c a) (p.le b d)

  pub pair_refl : (x : A × B) → pair_le x x ≡ true
  pair_refl (a, b) = ground (arith, o.refl_le a, p.refl_le b)

  pub pair_total : (x y : A × B) → pair_le x y ≡ false → pair_le y x ≡ true
  pair_total (a, b) (c, d) h = ground (arith, o.total a c, p.total b d)

  pub pair_trans : (x y z : A × B) → pair_le x y ≡ true → pair_le y z ≡ true → pair_le x z ≡ true
  pair_trans (a, b) (c, d) (e, f) h k = ground (
    arith,
    o.trans a c e,
    o.trans e c a,
    o.trans c a e,
    o.trans c e a,
    o.trans e a c,
    p.trans b d f,
  )

  pub pair_antisym : (x y : A × B) → pair_le x y ≡ true → pair_le y x ≡ true → x ≡ y
  pair_antisym (a, b) (c, d) h k = ground (arith, o.antisym a c, p.antisym b d)

  abbrev pub pair_order : Order (A × B)
  pair_order = record {
    le = pair_le;
    refl_le = pair_refl;
    total = pair_total;
    trans = pair_trans;
    antisym = pair_antisym;
  }

-- Texts compare character by character, a prefix first.
unfoldable pub str_le : String → String → Bool
str_le String.[] t = true
str_le (String.◌∷◌ c s) String.[] = false
str_le (String.◌∷◌ c s) (String.◌∷◌ d t) =
    let rest = str_le s t in lex_le (leb (code c) (code d)) (leb (code d) (code c)) rest

pub str_refl : (s : String) → str_le s s ≡ true
unfolding str_le
str_refl String.[] = refl
str_refl (String.◌∷◌ c s) = ground (arith, str_refl s)

pub str_total : (s t : String) → str_le s t ≡ false → str_le t s ≡ true
unfolding str_le
str_total String.[] t h = cc
str_total (String.◌∷◌ c s) String.[] h = refl
str_total (String.◌∷◌ c s) (String.◌∷◌ d t) h = ground (arith, str_total s t)

pub str_trans : (s t u : String) → str_le s t ≡ true → str_le t u ≡ true → str_le s u ≡ true
unfolding str_le
str_trans String.[] t u h k = refl
str_trans (String.◌∷◌ c s) (String.◌∷◌ d t) (String.◌∷◌ e u) h k = ground (arith, str_trans s t u)
str_trans (String.◌∷◌ c s) String.[] u h k = cc
str_trans (String.◌∷◌ c s) (String.◌∷◌ d t) String.[] h k = cc

pub str_antisym : (s t : String) → str_le s t ≡ true → str_le t s ≡ true → s ≡ t
unfolding str_le
str_antisym String.[] String.[] h k = refl
str_antisym String.[] (String.◌∷◌ d t) h k = cc
str_antisym (String.◌∷◌ c s) String.[] h k = cc
str_antisym (String.◌∷◌ c s) (String.◌∷◌ d t) h k =
    ap₂ ◌∷◌ (Char-path c d (ground arith)) (str_antisym s t (ground arith) (ground arith))

abbrev pub str_order : Order String
str_order = record {
  le = str_le;
  refl_le = str_refl;
  total = str_total;
  trans = str_trans;
  antisym = str_antisym;
}
