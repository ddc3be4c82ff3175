-- ===== src/Domain/Artifact.antt =====
-- internal/domain/artifact.go. The digest is the hexadecimal SHA-256 of the content: a library
-- function, and a parameter here.
use ants.Prelude.{ℕ, Bool, true, false, not, Text, is_empty, Int64, Time, length, ltb, []}
use ants.Domain.Errors.{Result, ok, ◌>>=◌, ◌>>◌, refuse_if, invalidf}
use ants.Domain.Ids.{Entity, parse_id}

pub data ArtifactKind : Type 0 where
  diff log report : ArtifactKind
  other : Text → ArtifactKind

abbrev pub is_valid_kind : ArtifactKind → Bool
is_valid_kind (other s) = false
is_valid_kind diff = true
is_valid_kind log = true
is_valid_kind report = true

pub data RetentionClass : Type 0 where
  ephemeral durable : RetentionClass
  unknown : Text → RetentionClass

abbrev is_valid_retention : RetentionClass → Bool
is_valid_retention (unknown s) = false
is_valid_retention ephemeral = true
is_valid_retention durable = true

abbrev pub max_artifact_bytes : ℕ
max_artifact_bytes = 8388608

pub record Artifact : Type 0 where
  pub id : Text
  pub tenant_id : Text
  pub run_id : Text
  pub task_id : Text
  pub kind : ArtifactKind
  pub digest : Text
  pub size_bytes : Int64
  pub retention : RetentionClass
  pub producer_task_id : Text
  pub created_at : Time
  pub content : Text

unfoldable pub new_artifact :
    (digest : Text → Text) (id tenant_id run_id : Text) (kind : ArtifactKind)
    (retention : RetentionClass) (content : Text) (now : Time)
    → Result Artifact
new_artifact digest id tenant_id run_id kind retention content now = do
  _ ← parse_id Entity.artifact id
  refuse_if (not (is_valid_kind kind)) (invalidf "artifact_kind")
  refuse_if (not (is_valid_retention retention)) (invalidf "artifact_retention")
  refuse_if (is_empty content) (invalidf "artifact_content")
  refuse_if (ltb max_artifact_bytes (length content)) (invalidf "artifact_size")
  ok (record {
    id = id;
    tenant_id = tenant_id;
    run_id = run_id;
    task_id = [];
    kind = kind;
    digest = digest content;
    size_bytes = length content;
    retention = retention;
    producer_task_id = [];
    created_at = now;
    content = content;
  })
