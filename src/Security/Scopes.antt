-- ===== src/Security/Scopes.antt =====
-- The scope of a principal that was made of claims (src/phigraph/core_v3/auth.py).
use phigraph.Prelude.{String, ◌≡◌, refl, sym, ap, Bool, true, false, Option, none, some, ◌==◌}
use phigraph.Python.{Runtime}
use phigraph.Python.Values.{str, Fields, get}
use phigraph.Python.Errors.{Result, ok, err, value_error, >>=-eq-ok}
use phigraph.Security.{Principal, resolved, text_of, role_of, or_default, principal_from_claims}

resolved-text :
    (runtime : Runtime) (fallback : Bool) (t missing : String) (header : Option String)
    → (t == "") ≡ false
    → resolved runtime fallback (some (str t)) header missing ≡ ok (some (str t))
resolved-text runtime true t missing header h = rw h refl
resolved-text runtime false t missing header h = rw h refl

text_of-text :
    (runtime : Runtime) (t : String) → (t == "") ≡ false → text_of runtime (some (str t)) ≡ ok t
text_of-text runtime t h = rw h refl

ok-inj : {A : Type 0} {a b : A} → ◌≡◌ {A = Result A} (ok a) (ok b) → a ≡ b
ok-inj h = cc

-- A tenant and a project that the claims name are those of the principal, whatever the headers
-- say and whether or not they may stand in for missing claims.
pub principal_from_claims-scope :
    (runtime : Runtime) (claims : Fields) (header header' : Option String) (fallback : Bool)
    (t p : String) (principal : Principal)
    → get "tenant_id" claims ≡ some (str t)
    → get "project_id" claims ≡ some (str p)
    → (t == "") ≡ false
    → (p == "") ≡ false
    → principal_from_claims runtime claims header header' fallback ≡ ok principal
    → (principal.tenant_id ≡ t) × (principal.project_id ≡ p)
unfolding principal_from_claims
principal_from_claims-scope runtime claims header header' fallback t p principal ht hp nt np e =
    let made =
      rw
        (
          ht,
          hp,
          resolved-text runtime fallback t "missing_tenant_id_claim" header nt,
          resolved-text runtime fallback p "missing_project_id_claim" header' np,
          nt,
          np,
        )
        at e in
    let role = >>=-eq-ok (role_of (or_default (get "role" claims) "viewer")) _ made in
    (
      ap (λ (q : Principal). q.tenant_id) (sym (ok-inj role.2)),
      ap (λ (q : Principal). q.project_id) (sym (ok-inj role.2)),
    )

-- Without the fallback to headers, no principal is made of claims that do not name a tenant.
pub principal_from_claims-missing :
    (runtime : Runtime) (claims : Fields) (header header' : Option String)
    → get "tenant_id" claims ≡ none
    → principal_from_claims runtime claims header header' false
      ≡ err (value_error "missing_tenant_id_claim")
unfolding principal_from_claims
principal_from_claims-missing runtime claims header header' h = rw h refl
