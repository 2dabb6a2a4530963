-- ===== src/Grdi/Arguments.antt =====
-- How the service reads the fields of a record back from a row, and calls its constructor with them
-- (src/phigraph/grdi/service.py, `_execution_request_from_row` and its like).
use phigraph.Prelude.{
  String, Bool, true, ◌&&◌, Option, none, some, List, [], ◌∷◌, ◌==◌, contains, if◌then◌else◌,
}
use phigraph.Python.Values.{
  Json, null, bool, num, other_num, str, arr, obj, Items, nil, cons, Fields, end, field, get,
  without,
}
use phigraph.Python.Errors.{Error, Result, ok, err, key_error, value_error, type_error}
use phigraph.Grdi.Models.{
  GatewayEligibilityState, eligible_for_shadow, blocked, ShadowSimulationState, not_simulated,
  simulated, ExecutionState, executed, not_executed, VerificationState, verified, not_verified,
  AuthorizationState, authorized, not_authorized, requires_approval, ExecutabilityState, executable,
  not_executable,
}

-- What reading a row comes to: the record, an exception, or `untyped`, where the code goes on with
-- a value of another type than the field is declared with, which the records here cannot hold.
pub data Made (A : Type 0) : Type 0 where
  made : A → Made A
  raised : Error → Made A
  untyped : Made A

infixl 5 ◌>>=◌ ◌>>◌
abbrev pub ◌>>=◌ : {A B : Type 0} → Made A → (A → Made B) → Made B
made a >>= rest = rest a
raised e >>= rest = raised e
untyped >>= rest = untyped

abbrev pub ◌>>◌ : {A : Type 0} → Made (Unit {0}) → Made A → Made A
made _ >> rest = rest
raised e >> rest = raised e
untyped >> rest = untyped

-- `{key: value for key, value in row.items() if key not in {"_chain", "scope"}}`
abbrev pub clean : Fields → Fields
clean row = without "scope" (without "_chain" row)

-- The texts of a list, if all its values are texts.
abbrev pub texts_of : Items → Made (List String)
texts_of nil = made []
texts_of (cons (str s) rest) = texts_of rest >>= λ more. made (s ∷ more)
texts_of (cons _ rest) = untyped

-- `tuple(clean.get(k, ()))`. A text or a dict gives the tuple of its characters or its keys.
abbrev pub tuple_of : Option Json → Made (List String)
tuple_of none = made []
tuple_of (some (arr items)) = texts_of items
tuple_of (some (str s)) = untyped
tuple_of (some (obj d)) = untyped
tuple_of (some null) = raised (type_error "not iterable")
tuple_of (some (bool b)) = raised (type_error "not iterable")
tuple_of (some (num n)) = raised (type_error "not iterable")
tuple_of (some (other_num s)) = raised (type_error "not iterable")

-- `clean[k]`
abbrev pub item : String → Option Json → Made Json
item k none = raised (key_error k)
item k (some v) = made v

-- `GatewayEligibilityState(v)`
abbrev pub eligibility_of : Json → Made GatewayEligibilityState
eligibility_of (str s) =
    if s == "ELIGIBLE_FOR_SHADOW"
    then made eligible_for_shadow
    else if s == "BLOCKED"
    then made blocked
    else raised (value_error "not a valid state")
eligibility_of _ = raised (value_error "not a valid state")

-- `ShadowSimulationState(v)`
abbrev pub simulation_of : Json → Made ShadowSimulationState
simulation_of (str s) =
    if s == "NOT_SIMULATED"
    then made not_simulated
    else if s == "SIMULATED"
    then made simulated
    else raised (value_error "not a valid state")
simulation_of _ = raised (value_error "not a valid state")

-- `ExecutionState(v)`
abbrev pub execution_of : Json → Made ExecutionState
execution_of (str s) =
    if s == "EXECUTED"
    then made executed
    else if s == "NOT_EXECUTED"
    then made not_executed
    else raised (value_error "not a valid state")
execution_of _ = raised (value_error "not a valid state")

-- `VerificationState(v)`
abbrev pub verification_of : Json → Made VerificationState
verification_of (str s) =
    if s == "VERIFIED"
    then made verified
    else if s == "NOT_VERIFIED"
    then made not_verified
    else raised (value_error "not a valid state")
verification_of _ = raised (value_error "not a valid state")

-- `AuthorizationState(v)`
abbrev pub authorization_of : Json → Made AuthorizationState
authorization_of (str s) =
    if s == "AUTHORIZED"
    then made authorized
    else if s == "NOT_AUTHORIZED"
    then made not_authorized
    else if s == "REQUIRES_APPROVAL"
    then made requires_approval
    else raised (value_error "not a valid state")
authorization_of _ = raised (value_error "not a valid state")

-- `ExecutabilityState(v)`
abbrev pub executability_of : Json → Made ExecutabilityState
executability_of (str s) =
    if s == "EXECUTABLE"
    then made executable
    else if s == "NOT_EXECUTABLE"
    then made not_executable
    else raised (value_error "not a valid state")
executability_of _ = raised (value_error "not a valid state")

-- Every key of the dict is one of the names.
abbrev pub has_only : List String → Fields → Bool
has_only names end = true
has_only names (field k v d) = contains names k && has_only names d

-- A call of a constructor with keyword arguments refuses a name that it does not have.
abbrev pub known_arguments : List String → Fields → Made (Unit {0})
known_arguments names d =
    if has_only names d then made tt else raised (type_error "unexpected keyword argument")

-- An argument without a default.
abbrev pub required : Option Json → Made Json
required none = raised (type_error "missing required argument")
required (some v) = made v

abbrev pub defaulted : Json → Option Json → Made Json
defaulted v none = made v
defaulted v (some w) = made w

abbrev pub a_text : Json → Made String
a_text (str s) = made s
a_text _ = untyped

abbrev pub a_bool : Json → Made Bool
a_bool (bool b) = made b
a_bool _ = untyped

abbrev pub a_dict : Json → Made Fields
a_dict (obj d) = made d
a_dict _ = untyped

abbrev pub required_text : String → Fields → Made String
required_text k d = required (get k d) >>= a_text

-- The check behind a construction.
abbrev pub checked : {A : Type 0} → Result (Unit {0}) → A → Made A
checked (ok _) a = made a
checked (err e) a = raised e
