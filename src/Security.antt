-- ===== src/Security.antt =====
-- src/phigraph/core_v3/security.py: roles, permissions and principals; and the principal that
-- `principal_from_claims` of src/phigraph/core_v3/auth.py makes of verified claims.
pub mod Scopes
mod Tests
use phigraph.Prelude.{
  String, Bool, true, false, ◌||◌, Option, none, some, List, [], ◌∷◌, ◌==◌, contains, if◌then◌else◌,
}
use phigraph.Python.{Runtime}
use phigraph.Python.Values.{Json, null, bool, num, other_num, str, arr, obj, Fields, get}
use phigraph.Python.Errors.{Result, ok, err, value_error, raise_if, ◌>>=◌, ◌>>◌}
use phigraph.EvidenceLedger.Queries.{truthy}
use phigraph.EvidenceLedger.Sqlite.{str_of_value}

pub data Role : Type 0 where
  viewer operator verifier admin : Role

-- `_PERMISSIONS`
abbrev pub permissions : Role → List String
permissions viewer = "read" ∷ []
permissions operator =
    "read" ∷ "claim:create" ∷ "evidence:create" ∷ "runtime:run" ∷ "grdi:create" ∷ "grdi:plan" ∷ []
permissions verifier =
    "read" ∷ "claim:create" ∷ "evidence:create" ∷ "verification:create" ∷ "hav:verify"
    ∷ "runtime:run" ∷ "grdi:create" ∷ "grdi:authorize" ∷ "grdi:plan" ∷ "grdi:simulate"
    ∷ "grdi:record_outcome" ∷ "grdi:replay" ∷ "grdi:compare" ∷ []
permissions admin = "*" ∷ []

pub record Principal : Type 0 where
  pub subject : String
  pub role : Role
  pub tenant_id : String
  pub project_id : String
  pub issuer : String

-- `allows`
unfoldable pub allows : Principal → String → Bool
allows principal permission =
    contains (permissions (principal.role)) "*"
    || contains (permissions (principal.role)) permission

-- `Role(value)`, of the texts of the roles.
abbrev pub role_of : Json → Result Role
role_of (str s) =
    if s == "viewer"
    then ok viewer
    else (if s == "operator"
        then ok operator
        else (if s == "verifier"
            then ok verifier
            else (if s == "admin" then ok admin else err (value_error "invalid_role"))))
role_of v = err (value_error "invalid_role")

abbrev pub or_default : Option Json → String → Json
or_default none default = str default
or_default (some v) default = v

-- `claim in (None, "")`
abbrev pub is_blank : Option Json → Bool
is_blank none = true
is_blank (some null) = true
is_blank (some (str s)) = s == ""
is_blank _ = false

abbrev pub of_header : Option String → Option Json
of_header none = none
of_header (some s) = some (str s)

-- The tenant or the project: the claim, or the header where that is allowed.
abbrev pub resolved : Runtime → Bool → Option Json → Option String → String → Result (Option Json)
resolved runtime true claim header missing = ok (if is_blank claim then of_header header else claim)
resolved runtime false (some claim) header missing =
    if is_blank (some claim)
    then err (value_error missing)
    else ok (some (str (str_of_value runtime claim)))
resolved runtime false none header missing = err (value_error missing)

abbrev pub text_of : Runtime → Option Json → Result String
text_of runtime value =
    if truthy value
    then ok (elim value [ none ↦ "" | some v ↦ str_of_value runtime v ])
    else err (value_error "missing_scope_claim")

unfoldable pub principal_from_claims :
    Runtime → Fields → Option String → Option String → Bool → Result Principal
principal_from_claims runtime claims tenant_id project_id allow_header_fallback = do
  tenant ←
      resolved runtime allow_header_fallback (get "tenant_id" claims) tenant_id
        "missing_tenant_id_claim"
  project ←
      resolved runtime allow_header_fallback (get "project_id" claims) project_id
        "missing_project_id_claim"
  tenant_text ← text_of runtime tenant
  project_text ← text_of runtime project
  role ← role_of (or_default (get "role" claims) "viewer")
  ok (record {
    subject = str_of_value runtime (or_default (get "sub" claims) "unknown");
    role = role;
    tenant_id = tenant_text;
    project_id = project_text;
    issuer = str_of_value runtime (or_default (get "iss" claims) "jwt");
  })
