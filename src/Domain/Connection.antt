-- ===== src/Domain/Connection.antt =====
-- internal/domain/integration.go: connections to providers of source control.
use ants.Prelude.{Bool, true, false, not, List, Text, is_empty, Int64, inc, Time}
use ants.Domain.Errors.{Result, ok, ◌>>=◌, ◌>>◌, refuse_if, invalidf}
use ants.Domain.Ids.{Entity, parse_id}
use ants.Domain.States.{move}
use ants.Domain.ConnectionStatus.{ConnectionStatus, status_eq, can_transition}

pub data IntegrationProvider : Type 0 where
  github gitlab generic : IntegrationProvider
  other : Text → IntegrationProvider

abbrev is_valid_provider : IntegrationProvider → Bool
is_valid_provider (other s) = false
is_valid_provider github = true
is_valid_provider gitlab = true
is_valid_provider generic = true

pub record IntegrationConnection : Type 0 where
  pub id : Text
  pub tenant_id : Text
  pub provider : IntegrationProvider
  pub status : ConnectionStatus
  pub scopes : List Text
  pub secret_ref : Text
  pub version : Int64
  pub created_at : Time

unfoldable pub new_integration :
    (id tenant_id : Text) (provider : IntegrationProvider) (scopes : List Text) (secret_ref : Text)
    (now : Time)
    → Result IntegrationConnection
new_integration id tenant_id provider scopes secret_ref now = do
  _ ← parse_id Entity.integration id
  refuse_if (not (is_valid_provider provider)) (invalidf "integration_provider")
  refuse_if (is_empty secret_ref) (invalidf "integration_secret_ref")
  ok (record {
    id = id;
    tenant_id = tenant_id;
    provider = provider;
    status = ConnectionStatus.pending;
    scopes = scopes;
    secret_ref = secret_ref;
    version = 1;
    created_at = now;
  })

unfoldable pub transition_to :
    IntegrationConnection → ConnectionStatus → Result IntegrationConnection
transition_to c next = do
  status ← move can_transition c.status next
  ok (record c { status = status; version = inc c.version })
