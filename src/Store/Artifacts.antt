-- ===== src/Store/Artifacts.antt =====
-- internal/store/memory/workspaces.go, ArtifactRepository.
use ants.Prelude.{◌&&◌, List, Text, text_eq, keep, sort, ltb}
use ants.Domain.Errors.{Result, ok, ◌>>◌, refuse_if, conflictf}
use ants.Domain.Artifact.{Artifact}
use ants.Store.Assoc.{lookup, put}
use ants.Store.Rows.{Rows, has, values, find_own}
use ants.Store.Database.{Database}

abbrev pub artifact_rows : Rows Artifact
artifact_rows = record {
  key = λ (r : Artifact). r.id;
  tenant_of = λ (r : Artifact). r.tenant_id;
  missing = "artifact_not_found";
}

unfoldable pub create : Artifact → Database → Result Database
create artifact db = do
  refuse_if (has (lookup artifact.id db.artifacts)) (conflictf "artifact_exists")
  ok (record db { artifacts = put artifact.id artifact db.artifacts })

unfoldable pub get : (tenant_id id : Text) → Database → Result Artifact
get tenant_id id db = find_own artifact_rows tenant_id id db.artifacts

-- In the order of creation.
unfoldable pub list_by_run : (tenant_id run_id : Text) → Database → List Artifact
list_by_run tenant_id run_id db =
    sort (λ (a b : Artifact). ltb a.created_at b.created_at)
      (keep (λ (r : Artifact). text_eq r.run_id run_id && text_eq r.tenant_id tenant_id)
        (values db.artifacts))
