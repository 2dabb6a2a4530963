-- ===== src/Python/Errors.antt =====
-- The exceptions that the program raises, each with the fixed part of its message, and the
-- result of code that may raise.
use phigraph.Prelude.{◌≡◌, refl, String, Bool, true, false}

pub data Error : Type 0 where
  value_error key_error attribute_error duplicate_canonical_key scoped_record_not_found :
      String → Error
  version_conflict transaction_unavailable ledger_integrity_error undeclared_lock_ref type_error :
      String → Error
  integrity_error index_error : String → Error

-- What a call comes back with: the exception that it raised, or its value.
pub data Result {κ} (V : Type κ) : Type κ where
  err : Error → Result V
  ok : V → Result V

-- `if b: raise e`
abbrev pub raise_if : Bool → Error → Result (Unit {0})
raise_if false e = ok tt
raise_if true e = err e

infixl 5 ◌>>=◌ ◌>>◌
-- A statement that may raise, and the rest of its block.
abbrev pub ◌>>◌ {κ} : {V : Type κ} → Result (Unit {0}) → Result V → Result V
err e >> rest = err e
ok _ >> rest = rest

-- An assignment that may raise, and the rest of its block.
abbrev pub ◌>>=◌ {κ ℓ} : {V : Type κ} {W : Type ℓ} → Result V → (V → Result W) → Result W
err e >>= rest = err e
ok v >>= rest = rest v

-- What a block that has not raised says of its steps.
pub >>-eq-ok {ℓ} :
    {B : Type ℓ} (m : Result (Unit {0})) (k : Result B) {b : B}
    → (m >> k) ≡ ok b
    → (m ≡ ok tt) × (k ≡ ok b)
>>-eq-ok (ok _) k h = (refl, h)
>>-eq-ok (err e) k h = cc

pub >>=-eq-ok {κ ℓ} :
    {V : Type κ} {W : Type ℓ} (step : Result V) (rest : V → Result W) {w : W}
    → (step >>= rest) ≡ ok w
    → (v : V) × (step ≡ ok v) × (rest v ≡ ok w)
>>=-eq-ok (err e) rest h = cc
>>=-eq-ok (ok v) rest h = (v, refl, h)

pub raise_if-eq-ok : (b : Bool) (e : Error) → raise_if b e ≡ ok tt → b ≡ false
raise_if-eq-ok true e h = cc
raise_if-eq-ok false e h = refl
