-- ===== src/Python/Values.antt =====
-- The values of `json`, and a Python `dict[str, Any]` with its entries in insertion order.
use phigraph.Prelude.{
  ℕ, String, ◌≡◌, refl, Bool, true, false, Option, none, some, arith, ◌==◌, eq_iff, eqb,
  if◌then◌else◌,
}

-- A number that is no natural is kept as it is written: the program does not compute with one.
mutual
  pub data Json : Type 0 where
    null : Json
    bool : Bool → Json
    num : ℕ → Json
    other_num : String → Json
    str : String → Json
    arr : Items → Json
    obj : Fields → Json

  pub data Items : Type 0 where
    nil : Items
    cons : Json → Items → Items

  pub data Fields : Type 0 where
    end : Fields
    field : String → Json → Fields → Fields

-- `d.get(k)`
unfoldable pub get : String → Fields → Option Json
get k end = none
get k (field j v d) = let rest = get k d in if j == k then some v else rest

-- `{**d, k: v}`
unfoldable pub put : String → Json → Fields → Fields
put k v end = field k v end
put k v (field j w d) = let rest = put k v d in if j == k then field j v d else field j w rest

-- `{key: value for key, value in d.items() if key != k}`
unfoldable pub without : String → Fields → Fields
without k end = end
without k (field j w d) = let rest = without k d in if j == k then rest else field j w rest

pub get-put :
    (k j : String) (v : Json) (d : Fields)
    → get j (put k v d) ≡ (if k == j then some v else get j d)
unfolding get put
get-put k j v end = refl
get-put k j v (field i w d) = ground (arith, get-put k j v d, eq_iff k j, eq_iff i k, eq_iff i j)

pub get-put_self : (k : String) (v : Json) (d : Fields) → get k (put k v d) ≡ some v
get-put_self k v d = rw get-put (ground (arith, eq_iff k k))

pub without-put : (k : String) (v : Json) (d : Fields) → without k (put k v d) ≡ without k d
unfolding without put
without-put k v end = ground (arith, eq_iff k k)
without-put k v (field i w d) = ground (arith, without-put k v d, eq_iff i k)

-- `v == n`, in Python also for `True` and `False`.
abbrev pub eq_num : Option Json → ℕ → Bool
eq_num (some (num m)) n = eqb m n
eq_num (some (bool true)) n = eqb n 1
eq_num (some (bool false)) n = eqb n 0
eq_num _ n = false

-- `v == o` for an optional text: a missing entry reads as `None`.
abbrev pub eq_opt_str : Option Json → Option String → Bool
eq_opt_str none none = true
eq_opt_str (some null) none = true
eq_opt_str (some (str s)) (some t) = s == t
eq_opt_str _ _ = false

-- `v is b`
abbrev pub is_bool : Option Json → Bool → Bool
is_bool (some (bool true)) true = true
is_bool (some (bool false)) false = true
is_bool _ _ = false

abbrev pub of_opt_str : Option String → Json
of_opt_str none = null
of_opt_str (some s) = str s
