-- ===== src/Security/Tests.antt =====
-- Principals of concrete claims.
use phigraph.Prelude.{◌≡◌, refl, true, false, some}
use phigraph.Python.Values.{Fields, field, str, end}
use phigraph.ScopedLedger.Tests.Samples.{runtime}
use phigraph.Security.{Principal, verifier, viewer, allows, principal_from_claims}
use phigraph.Security.Scopes.{principal_from_claims-scope}

abbrev claims : Fields
claims =
    field "tenant_id" (str "t1") (field "project_id" (str "p1") (field "role" (str "verifier") end))

abbrev principal : Principal
principal = record {
  subject = "unknown";
  role = verifier;
  tenant_id = "t1";
  project_id = "p1";
  issuer = "jwt";
}

verifier_authorizes : allows principal "grdi:authorize" ≡ true
unfolding allows
verifier_authorizes = refl

viewer_does_not : allows (record principal { role = viewer }) "grdi:authorize" ≡ false
unfolding allows
viewer_does_not = refl

principal_from_claims-scope_example : (principal.tenant_id ≡ "t1") × (principal.project_id ≡ "p1")
unfolding phigraph.Python.Values.get principal_from_claims
principal_from_claims-scope_example =
    principal_from_claims-scope runtime claims (some "t2") (some "p2") true "t1" "p1" principal refl
      refl refl refl refl
