-- ===== src/Domain/Thread.antt =====
-- internal/domain/thread.go: conversations and their messages.
pub mod Laws
use ants.Prelude.{ℕ, Bool, true, false, not, Text, is_empty, Int64, inc, Time}
use ants.Domain.Errors.{Result, ok, err, ◌>>=◌, ◌>>◌, refuse_if, invalidf}
use ants.Domain.Ids.{Entity, parse_id}
use ants.Domain.States.{move}
use ants.Domain.ThreadStatus.{ThreadStatus, status_eq, can_transition}

pub data ThreadRole : Type 0 where
  user agent system : ThreadRole
  other : Text → ThreadRole

pub data DeliveryMode : Type 0 where
  immediate queue steer : DeliveryMode
  unknown : Text → DeliveryMode

pub record Message : Type 0 where
  pub id : Text
  pub tenant_id : Text
  pub thread_id : Text
  pub seq : Int64
  pub role : ThreadRole
  pub delivery_mode : DeliveryMode
  pub content : Text
  pub created_at : Time

abbrev is_known_role : ThreadRole → Bool
is_known_role (other s) = false
is_known_role user = true
is_known_role agent = true
is_known_role system = true

abbrev is_known_mode : DeliveryMode → Bool
is_known_mode (unknown s) = false
is_known_mode immediate = true
is_known_mode queue = true
is_known_mode steer = true

unfoldable pub validate_message : Message → Result (Unit {0})
validate_message m = do
  refuse_if (not (is_known_role m.role)) (invalidf "message_role")
  refuse_if (not (is_known_mode m.delivery_mode)) (invalidf "message_delivery_mode")
  refuse_if (is_empty m.content) (invalidf "message_content")

pub record Thread : Type 0 where
  pub id : Text
  pub tenant_id : Text
  pub project_id : Text
  pub title : Text
  pub status : ThreadStatus
  pub creator_id : Text
  pub version : Int64
  pub created_at : Time
  pub updated_at : Time

unfoldable pub new_thread :
    (id tenant_id project_id title creator : Text) (now : Time) → Result Thread
new_thread id tenant_id project_id title creator now = do
  _ ← parse_id Entity.thread id
  refuse_if (is_empty title) (invalidf "thread_title")
  ok (record {
    id = id;
    tenant_id = tenant_id;
    project_id = project_id;
    title = title;
    status = ThreadStatus.idle;
    creator_id = creator;
    version = 1;
    created_at = now;
    updated_at = now;
  })

unfoldable pub transition_to : Thread → ThreadStatus → Result Thread
transition_to t next = do
  status ← move can_transition t.status next
  ok (record t { status = status; version = inc t.version })
