-- ===== src/Tests/Policy.antt =====
-- The policy engine at concrete inputs.
use ants.Prelude.{text_eq, ◌≡◌, ◌↔◌, refl, false, none, some, List, [], ◌∷◌, Text, bytes}
use ants.Domain.Errors.{ok}
use ants.Domain.Ids.{char_at, new_prefixed, Entity, parse_id, new_id, prefix}
use ants.Policy.{
  evaluate, allow, PolicyAction, PolicyRequest, PolicyDecision, AuditEvent, Stores, decide,
  decision, authorize, audit_event,
}
use ants.Policy.Laws.{decide-allow_iff, authorize-IsRecorded, Permits, IsRecorded}
use ants.Tests.Fixtures.{tenant, principal, run_id, zeros}

-- Stores that keep what they are given.
abbrev lists : Stores
lists = record {
  S = List PolicyDecision × List AuditEvent;
  record_decision = λ d st. ok (d ∷ st.0, st.1);
  append_audit = λ e st. ok (st.0, e ∷ st.1);
}

abbrev request : PolicyRequest
request = record {
  tenant_id = tenant;
  run_id = run_id;
  task_id = [];
  principal = principal;
  action = PolicyAction.sandbox_exec;
  resource = [];
}

decide-allow_iff_example : ((decide false request).0 ≡ allow) ↔ (
    ((p : Text) × (parse_id Entity.principal principal ≡ ok p))
    × ((t : Text) × (parse_id Entity.tenant tenant ≡ ok t))
    × Permits false PolicyAction.sandbox_exec)
decide-allow_iff_example = decide-allow_iff false request

abbrev fresh : Text
fresh = bytes "pol_aaaaaaaaaaaaaaaaaaaaaaaaaa"

abbrev granted : PolicyDecision
granted = decision false request 9 fresh

abbrev after : List PolicyDecision × List AuditEvent
after = (granted ∷ [], audit_event granted none (bytes "aud_aaaaaaaaaaaaaaaaaaaaaaaaaa") ∷ [])

ran :
    authorize lists false request 9 none (some zeros) (some zeros) ([], [])
    ≡ (after, some granted, none)
unfolding authorize evaluate new_id new_prefixed decision prefix decide char_at parse_id text_eq
ran = refl

authorize-IsRecorded_example :
    (granted.outcome ≡ allow)
    × (granted.request ≡ request)
    × ((t : Text) × (parse_id Entity.tenant tenant ≡ ok t))
    × ((p : Text) × (parse_id Entity.principal principal ≡ ok p))
    × Permits false PolicyAction.sandbox_exec
    × IsRecorded lists granted none ([], []) after
authorize-IsRecorded_example =
    authorize-IsRecorded lists false request 9 none (some zeros) (some zeros) ([], []) after granted
      ran
