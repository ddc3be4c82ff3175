-- ===== src/Correlation.antt =====
-- internal/correlation: identifiers that join requests, events and audit records.
use ants.Prelude.{
  ℕ, Bool, not, ◌&&◌, ◌||◌, ◌==◌, Option, none, some, [], Text, is_empty, is_alnum, length, all,
  leb, if◌then◌else◌,
}

abbrev pub max_length : ℕ
max_length = 128

abbrev pub is_correlation_char : ℕ → Bool
is_correlation_char c =
    is_alnum c
    || (c == b'.' || (c == b'_' || (c == b'~' || (c == b':' || (c == b'@' || c == b'-')))))

unfoldable pub valid : Text → Bool
valid v = not (is_empty v) && (leb (length v) max_length && all is_correlation_char v)

-- What a context carries: an identifier, if one was put there. An empty one counts as none.
unfoldable pub from : Option Text → Option Text
from none = none
from (some id) = if is_empty id then none else some id

abbrev or_empty : Option Text → Text
or_empty none = []
or_empty (some id) = id

unfoldable pub trace_id : Option Text → Text → Text
unfolding from
trace_id carried explicit = if not (is_empty explicit) then explicit else or_empty (from carried)
