-- ===== src/Client/State/Nulls.antt =====
-- internal/client/state/db.go: `nullString`, `nullTime`, `nullInt64` and `boolToInt`, which write the
-- empty values of Go as NULL, and what reading does with NULL.
use syna.Prelude.{ℕ, String, str_eq, ◌==◌, Bool, true, false, Option, none, some, if◌then◌else◌}
use syna.Protocol.{RootKind}
use syna.Client.State.Schema.{IssueKind, no_issue}

unfoldable pub null_text : String → Option String
null_text v = if str_eq v "" then none else some v

-- nullTime and nullInt64
unfoldable pub null_number : ℕ → Option ℕ
null_number v = if v == 0 then none else some v

unfoldable pub null_issue : IssueKind → Option IssueKind
null_issue no_issue = none
null_issue k = some k

-- nullString of a kind
unfoldable pub null_kind : RootKind → Option RootKind
null_kind RootKind.file = some RootKind.file
null_kind RootKind.dir = some RootKind.dir
null_kind (RootKind.other s) = if str_eq s "" then none else some (RootKind.other s)

unfoldable pub bool_to_int : Bool → ℕ
bool_to_int true = 1
bool_to_int false = 0

abbrev pub text_or_empty : Option String → String
text_or_empty none = ""
text_or_empty (some s) = s

abbrev pub number_or_zero : Option ℕ → ℕ
number_or_zero none = 0
number_or_zero (some n) = n

abbrev pub issue_or_none : Option IssueKind → IssueKind
issue_or_none none = no_issue
issue_or_none (some k) = k

abbrev pub kind_or_empty : Option RootKind → RootKind
kind_or_empty none = RootKind.other ""
kind_or_empty (some k) = k
