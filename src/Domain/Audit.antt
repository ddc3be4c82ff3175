-- ===== src/Domain/Audit.antt =====
-- internal/domain/audit.go: who caused what. A value of `map[string]any` is a text, an integer or, as
-- its JSON text, anything else.
use ants.Prelude.{Bool, true, false, not, List, Text, is_empty, Int64}
use ants.Domain.Errors.{Result, ◌>>◌, refuse_if, invalidf}

pub data AuditResult : Type 0 where
  allowed denied error : AuditResult

pub data PrincipalKind : Type 0 where
  human service_principal system : PrincipalKind
  other : Text → PrincipalKind

abbrev is_valid_kind : PrincipalKind → Bool
is_valid_kind (other s) = false
is_valid_kind human = true
is_valid_kind service_principal = true
is_valid_kind system = true

pub data Value : Type 0 where
  text : Text → Value
  number : Int64 → Value
  json : Text → Value

-- A `map[string]any`, as its entries.
abbrev pub Metadata : Type 0
Metadata = List (Text × Value)

pub record Actor : Type 0 where
  pub kind : PrincipalKind
  pub id : Text

unfoldable pub validate_actor : Actor → Result (Unit {0})
validate_actor a = do
  refuse_if (not (is_valid_kind a.kind)) (invalidf "actor_type")
  refuse_if (is_empty a.id) (invalidf "actor_id")
