-- ===== src/Workload/Tests.antt =====
-- auth/server/src/provider/workload.rs: the theorems at concrete claims.
use moghtech_lib.Base.{◌≡◌, ◌↔◌, refl, true, false, some, [], ◌∷◌, is_some, arith}
use moghtech_lib.Base.Text.{Text, codes, split}
use moghtech_lib.Config.Json.{Value, Fields, get}
use moghtech_lib.Workload.Glob.{glob_match}
use moghtech_lib.Workload.GlobLaws.{Glob, glob_match-Glob}
use moghtech_lib.Workload.Claims.{WorkloadRule, lookup, join, lookup_claim}
use moghtech_lib.Workload.Lookup.{At, lookup_claim-At}

glob_match-Glob_example :
    (glob_match (codes "refs/*/v*") (codes "refs/tags/v1.2") ≡ true)
    ↔ Glob (codes "refs/*/v*") (codes "refs/tags/v1.2")
glob_match-Glob_example = glob_match-Glob (codes "refs/*/v*") (codes "refs/tags/v1.2")

-- `{"kubernetes.io": {"namespace": "ci"}, "sub": "repo:org/app"}`
abbrev pub sample_claims : Fields
sample_claims =
    Fields.field (codes "kubernetes.io")
      (Value.object (Fields.field (codes "namespace") (Value.string (codes "ci")) Fields.end))
      (Fields.field (codes "sub") (Value.string (codes "repo:org/app")) Fields.end)

abbrev sample_path : Text
sample_path = codes "kubernetes.io.namespace"

found : lookup_claim sample_claims sample_path ≡ some (Value.string (codes "ci"))
unfolding lookup_claim lookup split join get
found = refl

lookup_claim-At_example :
    ((v : Value)
      → lookup_claim sample_claims sample_path ≡ some v
      → At sample_claims (split b'.' sample_path) v)
    × ((v : Value)
        → At sample_claims (split b'.' sample_path) v
        → is_some (lookup_claim sample_claims sample_path) ≡ true)
    × ((v : Value)
        → get sample_path sample_claims ≡ some v
        → lookup_claim sample_claims sample_path ≡ some v)
unfolding split
lookup_claim-At_example = lookup_claim-At sample_claims sample_path refl (omega arith)

abbrev pub disabled_rule : WorkloadRule
disabled_rule = record {
  id = codes "old";
  name = codes "Old";
  enabled = false;
  claims = record { claim = codes "sub"; pattern = codes "*" } ∷ [];
  groups = [];
  admin = true;
  token_ttl_secs = 0;
}

abbrev pub sample_rule : WorkloadRule
sample_rule = record {
  id = codes "ci";
  name = codes "CI";
  enabled = true;
  claims =
      record { claim = codes "sub"; pattern = codes "repo:org/*" }
      ∷ record { claim = codes "kubernetes.io.namespace"; pattern = codes "ci" }
      ∷ [];
  groups = codes "deploy" ∷ [];
  admin = false;
  token_ttl_secs = 900;
}
