-- ===== src/Client/Daemon/Ignored.antt =====
-- internal/client/daemon/daemon.go: `shouldSuppressIgnoredEntry` and `shouldSuppressIgnoredDelete`, which
-- the local change detection asks of a file and of a missing path, and how long a session is used
-- before it is renewed.
use Prim.Native.Nat.{◌/◌}
use syna.Prelude.{
  ℕ, ◌+◌, ◌-◌, ◌≤◌, ◌<◌, String, str_eq, ◌==◌, ℤ, pos, negsuc, ◌≡◌, refl, ap, ◌∙◌, Bool, true,
  false, not, ◌&&◌, ◌||◌, arith, leb, ltb, if◌then◌else◌,
}
use syna.Protocol.{RootKind}
use syna.Client.State.{StateDb, Entry, IgnoreRule, ignore_rule, set_ignore, ignore_rule-set_ignore}
use syna.Client.Applier.{is_file_kind}
use syna.Client.Daemon.Roots.{same_kind}

abbrev pub same_int : ℤ → ℤ → Bool
same_int (pos a) (pos b) = a == b
same_int (negsuc a) (negsuc b) = a == b
same_int _ _ = false

-- scanner.Entry: what a scan has found at a path
pub record ScannedEntry : Type 0 where
  pub rel_path : String
  pub abs_path : String
  pub kind : RootKind
  pub mode : ℕ
  pub mtime_ns : ℤ
  pub size_bytes : ℕ
  pub content_sha256 : String

abbrev pub suppresses_delete : IgnoreRule × Bool → Bool
suppresses_delete (rule, holds) = holds && rule.deleted

unfoldable pub should_suppress_ignored_delete : String → String → ℕ → StateDb → Bool
should_suppress_ignored_delete root_id rel_path now d =
    suppresses_delete (ignore_rule root_id rel_path now d)

abbrev pub suppresses_entry : ScannedEntry → IgnoreRule × Bool → Bool
suppresses_entry item (rule, false) = false
suppresses_entry item (rule, true) =
    if rule.deleted
      || not (same_kind rule.kind item.kind)
      || not (rule.mode == item.mode)
      || not (same_int rule.mtime_ns item.mtime_ns)
    then false
    else not (is_file_kind item.kind && not (str_eq rule.content_sha256 item.content_sha256))

unfoldable pub should_suppress_ignored_entry : String → ScannedEntry → ℕ → StateDb → Bool
should_suppress_ignored_entry root_id item now d =
    suppresses_entry item (ignore_rule root_id item.rel_path now d)

-- the item is what the entry says
abbrev pub is_expected : Entry → ScannedEntry → Bool
is_expected e item =
    not e.deleted
    && same_kind e.kind item.kind
    && (e.mode == item.mode)
    && same_int e.mtime_ns item.mtime_ns
    && (not (is_file_kind item.kind) || str_eq e.content_sha256 item.content_sha256)

-- the same of the rule
abbrev expects : IgnoreRule → ScannedEntry → Bool
expects rule item =
    not rule.deleted
    && same_kind rule.kind item.kind
    && (rule.mode == item.mode)
    && same_int rule.mtime_ns item.mtime_ns
    && (not (is_file_kind item.kind) || str_eq rule.content_sha256 item.content_sha256)

suppresses_entry_lem :
    (item : ScannedEntry) (rule : IgnoreRule) (holds : Bool)
    → suppresses_entry item (rule, holds) ≡ (holds && expects rule item)
suppresses_entry_lem item rule false = refl
suppresses_entry_lem item rule true =
    tests rule.deleted (same_kind rule.kind item.kind) (rule.mode == item.mode)
      (same_int rule.mtime_ns item.mtime_ns) (is_file_kind item.kind)
      (str_eq rule.content_sha256 item.content_sha256)
  where
    tests :
        (gone kind mode mtime single content : Bool)
        → (if gone || not kind || not mode || not mtime then false else not (single && not content))
          ≡ (not gone && kind && mode && mtime && (not single || content))
    tests true kind mode mtime single content = refl
    tests false false mode mtime single content = refl
    tests false true false mtime single content = refl
    tests false true true false single content = refl
    tests false true true true false content = refl
    tests false true true true true false = refl
    tests false true true true true true = refl

-- After a rule has been set for a path and an expected entry, `shouldSuppressIgnoredEntry` of that path
-- answers true just where the rule has not expired and the item is what the entry says, and
-- `shouldSuppressIgnoredDelete` just where the rule has not expired and the entry is a deleted one.
pub should_suppress-set_ignore :
    (root_id : String) (item : ScannedEntry) (expires_at now : ℕ) (expected : Entry) (d : StateDb)
    → (should_suppress_ignored_entry root_id item now
          (set_ignore root_id item.rel_path expires_at expected d)
        ≡ (ltb now expires_at && is_expected expected item))
      × (should_suppress_ignored_delete root_id item.rel_path now
            (set_ignore root_id item.rel_path expires_at expected d)
          ≡ (ltb now expires_at && expected.deleted))
unfolding should_suppress_ignored_entry should_suppress_ignored_delete
should_suppress-set_ignore root_id item expires_at now expected d =
    let rule = ignore_rule-set_ignore root_id item.rel_path expires_at now expected d in
    (
      ap (suppresses_entry item) rule
          ∙ suppresses_entry_lem item
              (record {
                root_id = root_id;
                rel_path = item.rel_path;
                expires_at = expires_at;
                kind = expected.kind;
                content_sha256 = expected.content_sha256;
                mode = expected.mode;
                mtime_ns = expected.mtime_ns;
                deleted = expected.deleted;
              })
              (ltb now expires_at),
      ap suppresses_delete rule,
    )

-- in nanoseconds
abbrev pub five_minutes : ℕ
five_minutes = 300_000_000_000

-- sessionRenewalDelay: five minutes before the session expires, or a tenth of what is left of it
abbrev pub renewal_lead : ℕ → ℕ
renewal_lead remaining =
    let lead = if leb remaining five_minutes then remaining / 10 else five_minutes in
    if lead == 0 then 1 else lead

unfoldable pub session_renewal_delay : ℕ → ℕ → ℕ
session_renewal_delay now expires_at =
    if leb expires_at now then 0 else (expires_at - now) - renewal_lead (expires_at - now)

-- A session that has not expired is renewed before it does, and not earlier than five minutes before
-- it does.
pub session_renewal_delay-bounds :
    (now expires_at : ℕ)
    → now < expires_at
    → (now + session_renewal_delay now expires_at < expires_at)
      × (expires_at ≤ now + session_renewal_delay now expires_at + five_minutes)
unfolding session_renewal_delay
session_renewal_delay-bounds now expires_at h = ground (arith, h)
