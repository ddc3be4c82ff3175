-- ===== src/Domain/Spec.antt =====
-- internal/domain/spec.go: a specification and its approval.
pub mod Laws
use ants.Prelude.{ℕ, Bool, true, false, List, [], ◌∷◌, Text, is_empty, Int64, slt, Time}
use ants.Domain.Errors.{Result, ok, err, ◌>>=◌, ◌>>◌, refuse_if, invalidf}
use ants.Domain.Ids.{Entity, parse_id}
use ants.Domain.States.{move}
use ants.Domain.SpecStatus.{SpecStatus, status_eq, can_transition}

pub record SpecContent : Type 0 where
  pub outcome : Text
  pub assumptions : List Text
  pub requirements : List Text
  pub non_goals : List Text
  pub success_criteria : List Text
  pub blockers : List Text

abbrev pub is_nil : List Text → Bool
is_nil [] = true
is_nil (x ∷ xs) = false

unfoldable pub validate_content : SpecContent → Result (Unit {0})
validate_content c = do
  refuse_if (is_empty c.outcome) (invalidf "spec_outcome")
  refuse_if (is_nil c.requirements) (invalidf "spec_requirements")

pub record Spec : Type 0 where
  pub id : Text
  pub tenant_id : Text
  pub thread_id : Text
  pub version : Int64
  pub status : SpecStatus
  pub content : SpecContent
  pub created_at : Time

unfoldable pub new_spec :
    (id tenant_id thread_id : Text) (version : Int64) (content : SpecContent) (now : Time)
    → Result Spec
unfolding validate_content
new_spec id tenant_id thread_id version content now = do
  _ ← parse_id Entity.spec id
  refuse_if (slt version 1) (invalidf "spec_version")
  validate_content content
  ok (record {
    id = id;
    tenant_id = tenant_id;
    thread_id = thread_id;
    version = version;
    status = SpecStatus.draft;
    content = content;
    created_at = now;
  })

-- The version of a specification is its number in the thread: a transition keeps it.
unfoldable pub transition : Spec → SpecStatus → Result Spec
transition s next = do status ← move can_transition s.status next; ok (record s { status = status })

unfoldable pub approve : Spec → Result Spec
unfolding transition
approve s = transition s SpecStatus.approved

unfoldable pub reject : Spec → Result Spec
unfolding transition
reject s = transition s SpecStatus.rejected

unfoldable pub supersede : Spec → Result Spec
unfolding transition
supersede s = transition s SpecStatus.superseded
