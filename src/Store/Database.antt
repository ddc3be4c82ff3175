-- ===== src/Store/Database.antt =====
-- internal/store/memory/store.go: the state that every repository shares, under one lock. Operations
-- follow one another; one that returns `Result` changes nothing where it fails.
use ants.Prelude.{
  Bool, ◌&&◌, ◌||◌, ◌==◌, Option, none, some, List, [], ◌∷◌, Text, text_eq, Int64, slt,
  if◌then◌else◌,
}
use ants.Domain.Tenant.{Tenant, Project}
use ants.Domain.Thread.{Thread, Message}
use ants.Domain.Spec.{Spec}
use ants.Domain.Task.{Task}
use ants.Domain.Run.{Run}
use ants.Domain.Workspace.{Workspace}
use ants.Domain.Artifact.{Artifact}
use ants.Domain.Connection.{IntegrationConnection}
use ants.Domain.Claim.{RunClaim}
use ants.Domain.Event.{Event}
use ants.Policy.{PolicyDecision, AuditEvent}
use ants.Store.Assoc.{Assoc}
use ants.Store.Outbox.{Outbox}

pub record IdemKey : Type 0 where
  pub tenant : Text
  pub thread : Text
  pub key : Text

unfoldable pub idem_eq : IdemKey → IdemKey → Bool
idem_eq a b = text_eq a.tenant b.tenant && (text_eq a.thread b.thread && text_eq a.key b.key)

-- A map from such keys: its entries, the newest first.
unfoldable pub find_idem : IdemKey → List (IdemKey × Text) → Option Text
find_idem k [] = none
find_idem k ((j, id) ∷ keys) = if idem_eq j k then some id else find_idem k keys

-- `outbox` stands for the three fields of the outbox.
pub record Database : Type 0 where
  pub outbox_max_attempts : Int64
  pub tenants : Assoc Tenant
  pub tenant_slugs : Assoc Text
  pub projects : Assoc Project
  pub threads : Assoc Thread
  pub messages : Assoc (List Message)
  pub specs : Assoc Spec
  pub tasks : Assoc Task
  pub runs : Assoc Run
  pub run_idem_keys : List (IdemKey × Text)
  pub run_seqs : Assoc Int64
  pub workspaces : Assoc Workspace
  pub artifacts : Assoc Artifact
  pub audit_log : List AuditEvent
  pub policy_by_run : Assoc (List PolicyDecision)
  pub integrations : Assoc IntegrationConnection
  pub events : List Event
  pub outbox : Outbox
  pub run_claims : Assoc RunClaim
  pub event_seq : Int64

-- `NewReposWithOptions`, with the attempts of the options: none are given by 0, and the default is 5.
abbrev pub default_outbox_max_attempts : Int64
default_outbox_max_attempts = 5

abbrev or_default : Int64 → Int64
or_default n = if n == 0 then default_outbox_max_attempts else n

unfoldable pub new_repos_with_options : (outbox_max_attempts : Int64) → Option Database
new_repos_with_options n =
    if slt (or_default n) 1 || slt 100 (or_default n)
    then none
    else some (record {
      outbox_max_attempts = or_default n;
      tenants = [];
      tenant_slugs = [];
      projects = [];
      threads = [];
      messages = [];
      specs = [];
      tasks = [];
      runs = [];
      run_idem_keys = [];
      run_seqs = [];
      workspaces = [];
      artifacts = [];
      audit_log = [];
      policy_by_run = [];
      integrations = [];
      events = [];
      outbox = record { messages = []; by_id = []; by_dedup = []; next_ref = 0 };
      run_claims = [];
      event_seq = 0;
    })
