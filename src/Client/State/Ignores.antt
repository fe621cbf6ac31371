-- ===== src/Client/State/Ignores.antt =====
-- internal/client/state/db.go: the table `ignore_events`, which tells a scan what the daemon itself
-- has just written.
use syna.Prelude.{ℕ, String, str_eq, ℤ, pos, ◌==◌, Bool, true, false, ◌&&◌, Option, none, some, ltb}
use syna.Protocol.{RootKind}
use syna.Table.{find, upsert}
use syna.Client.State.Schema.{StateDb, Entry, IgnoreRow, IgnoreRule}
use syna.Client.State.Nulls.{
  null_text, null_kind, bool_to_int, text_or_empty, number_or_zero, kind_or_empty,
}

abbrev pub is_ignore : String → String → IgnoreRow → Bool
is_ignore root_id rel_path r = str_eq r.root_id root_id && str_eq r.rel_path rel_path

abbrev pub ignore_row : String → String → ℕ → Entry → IgnoreRow
ignore_row root_id rel_path expires_at expected = record {
  root_id = root_id;
  rel_path = rel_path;
  expires_at = expires_at;
  kind = null_kind expected.kind;
  content_sha256 = null_text expected.content_sha256;
  mode = some expected.mode;
  mtime_ns = some expected.mtime_ns;
  deleted = bool_to_int expected.deleted;
}

unfoldable pub set_ignore : String → String → ℕ → Entry → StateDb → StateDb
set_ignore root_id rel_path expires_at expected d = record d {
  ignore_events =
      upsert (is_ignore root_id rel_path) (λ r. ignore_row root_id rel_path expires_at expected)
        (ignore_row root_id rel_path expires_at expected) d.ignore_events;
}

-- Entry{Deleted: true}
abbrev pub deleted_entry : Entry
deleted_entry = record {
  root_id = "";
  rel_path = "";
  path_id = "";
  kind = RootKind.other "";
  current_seq = 0;
  content_sha256 = "";
  size_bytes = 0;
  mode = 0;
  mtime_ns = pos 0;
  inode = 0;
  device = 0;
  deleted = true;
}

unfoldable pub set_ignore_delete : String → String → ℕ → StateDb → StateDb
set_ignore_delete root_id rel_path expires_at d =
    set_ignore root_id rel_path expires_at deleted_entry d

abbrev mtime_or_zero : Option ℤ → ℤ
mtime_or_zero none = pos 0
mtime_or_zero (some t) = t

abbrev pub rule_of_row : String → String → IgnoreRow → IgnoreRule
rule_of_row root_id rel_path r = record {
  root_id = root_id;
  rel_path = rel_path;
  expires_at = r.expires_at;
  kind = kind_or_empty r.kind;
  content_sha256 = text_or_empty r.content_sha256;
  mode = number_or_zero r.mode;
  mtime_ns = mtime_or_zero r.mtime_ns;
  deleted = r.deleted == 1;
}

abbrev pub empty_rule : IgnoreRule
empty_rule = record {
  root_id = "";
  rel_path = "";
  expires_at = 0;
  kind = RootKind.other "";
  content_sha256 = "";
  mode = 0;
  mtime_ns = pos 0;
  deleted = false;
}

abbrev pub rule_found : String → String → ℕ → Option IgnoreRow → IgnoreRule × Bool
rule_found root_id rel_path now none = (empty_rule, false)
rule_found root_id rel_path now (some r) = (rule_of_row root_id rel_path r, ltb now r.expires_at)

-- the rule, and whether it holds at the time
unfoldable pub ignore_rule : String → String → ℕ → StateDb → IgnoreRule × Bool
ignore_rule root_id rel_path now d =
    rule_found root_id rel_path now (find (is_ignore root_id rel_path) d.ignore_events)

unfoldable pub is_ignored : String → String → ℕ → StateDb → Bool
is_ignored root_id rel_path now d = (ignore_rule root_id rel_path now d).1
