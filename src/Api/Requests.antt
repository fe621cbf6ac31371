-- ===== src/Api/Requests.antt =====
-- internal/server/api/auth.go, events.go, snapshots.go and bootstrap.go: the requests of a client
-- that is logged in. `strconv.ParseInt` is an argument: `none` where it fails.
use Prim.Native.String.{len, slice}
use text.Mathlib.Text.{starts_with}
use syna.Prelude.{
  ℕ, ◌-◌, String, str_eq, ℤ, pos, negsuc, Bool, not, ◌&&◌, Option, none, some, List, [], ◌∷◌, map,
  zero, suc, ltb, if◌then◌else◌,
}
use syna.Prelude.Result.{Result, ok, err, ◌>>=◌, ◌>>◌, fail_if}
use syna.Protocol.{EventSubmitRequest, SnapshotSubmitRequest, RootKind}
use syna.Server.Schema.{Db, Session, RootRow}
use syna.Server.Errors.{DbError, resync_required, root_incarnation_mismatch, path_head_mismatch}
use syna.Server.Workspaces.{active_roots, current_seq}
use syna.Server.Events.{submit_event, fetch_events}
use syna.Server.Snapshots.{save_snapshot}
use syna.Server.Sessions.{authenticate}
use syna.Hub.{Hub, publish}
use syna.Api.Replies.{
  Reply, Refusal, refusal, conflict, method_not_allowed, decoded, EventSubmitResponse,
  EventFetchResponse,
}
use syna.Api.Login.{or_refuse}

abbrev pub unauthorized : Refusal
unauthorized = refusal 401 "unauthorized" ""

abbrev bearer : String
bearer = "Bearer "

-- the two headers of a request
unfoldable pub session_from_request :
    (String → String) → String → String → ℕ → Db → Reply (Db × Session)
session_from_request sha256 version authorization now d = do
  fail_if (not (str_eq version "1")) unauthorized
  fail_if (not (starts_with authorization bearer)) unauthorized
  or_refuse unauthorized
      (authenticate sha256 (slice authorization (len bearer) (len authorization)) now d)

abbrev pub bad_query : Refusal
bad_query = refusal 400 "bad_query" "invalid event query"

abbrev pub non_negative : Option ℤ → Reply ℕ
non_negative (some (pos n)) = ok n
non_negative (some (negsuc n)) = err bad_query
non_negative none = err bad_query

abbrev pub positive : Option ℤ → Reply ℕ
positive (some (pos (suc n))) = ok (suc n)
positive (some (pos zero)) = err bad_query
positive (some (negsuc n)) = err bad_query
positive none = err bad_query

abbrev pub capped : ℕ → ℕ → ℕ
capped max_page limit = if ltb 0 max_page && ltb max_page limit then max_page else limit

-- the cursor and the size of the page
unfoldable pub parse_event_fetch_query : (String → Option ℤ) → ℕ → String → String → Reply (ℕ × ℕ)
parse_event_fetch_query parse_int max_page raw_after raw_limit = do
  after ← if str_eq raw_after "" then ok 0 else non_negative (parse_int raw_after)
  limit ← if str_eq raw_limit "" then ok 100 else positive (parse_int raw_limit)
  ok (after, capped max_page limit)

abbrev pub fetch_refusal : DbError → Refusal
fetch_refusal (resync_required floor) = record {
  status = 410;
  body = record {
    code = "resync_required";
    message = "";
    current_seq = 0;
    retained_floor_seq = floor;
  };
}
fetch_refusal _ = refusal 500 "db_error" "database error"

abbrev pub refused_with : {A : Type 0} → (DbError → Refusal) → Result DbError A → Reply A
refused_with r (ok a) = ok a
refused_with r (err e) = err (r e)

unfoldable pub handle_event_fetch :
    (String → Option ℤ) → ℕ → Session → String → String → Db → Reply EventFetchResponse
handle_event_fetch parse_int max_page sess raw_after raw_limit d = do
  (after, limit) ← parse_event_fetch_query parse_int max_page raw_after raw_limit
  (events, head) ← refused_with fetch_refusal (fetch_events sess.workspace_id after limit d)
  ok (record { events = events; current_seq = head })

abbrev pub submit_refusal : DbError → Refusal
submit_refusal (root_incarnation_mismatch seq) = conflict "root_incarnation_mismatch" seq
submit_refusal (path_head_mismatch seq) = conflict "path_head_mismatch" seq
submit_refusal _ = refusal 400 "event_rejected" "event rejected"

-- `eventMu` makes the submission and the publication one step.
unfoldable pub handle_event_submit :
    Session → Option EventSubmitRequest → ℕ → Db → Hub → Reply (Db × Hub × EventSubmitResponse)
handle_event_submit sess body now d h = do
  req ← decoded body
  (d', r) ← refused_with submit_refusal (submit_event sess req now d)
  ok (
    d',
    publish sess.workspace_id (record { type = "event"; event = some r.event; server_time = none })
        h,
    record { accepted_seq = r.accepted_seq; workspace_seq = r.workspace_seq },
  )

pub record SnapshotSubmitResponse : Type 0 where
  pub root_id : String
  pub base_seq : ℤ
  pub object_id : String

unfoldable pub handle_snapshot_submit :
    String → Session → Option SnapshotSubmitRequest → ℕ → Db → Reply (Db × SnapshotSubmitResponse)
handle_snapshot_submit method sess body now d = do
  fail_if (not (str_eq method "POST")) method_not_allowed
  req ← decoded body
  d' ←
      or_refuse (refusal 400 "snapshot_rejected" "snapshot rejected") (save_snapshot sess req now d)
  ok (d', record { root_id = req.root_id; base_seq = req.base_seq; object_id = req.object_id })

pub record BootstrapRoot : Type 0 where
  pub root_id : String
  pub kind : RootKind
  pub descriptor_blob : String
  pub created_seq : ℕ
  pub removed_seq : Option ℕ
  pub latest_snapshot_object_id : String
  pub latest_snapshot_seq : ℕ

pub record BootstrapResponse : Type 0 where
  pub workspace_id : String
  pub current_seq : ℕ
  pub bootstrap_after_seq : ℕ
  pub roots : List BootstrapRoot

abbrev or_empty : Option String → String
or_empty none = ""
or_empty (some s) = s

abbrev or_zero : Option ℕ → ℕ
or_zero none = 0
or_zero (some n) = n

abbrev pub bootstrap_root : RootRow → BootstrapRoot
bootstrap_root r = record {
  root_id = r.root_id;
  kind = r.kind;
  descriptor_blob = r.descriptor_blob;
  created_seq = r.created_seq;
  removed_seq = r.removed_seq;
  latest_snapshot_object_id = or_empty r.latest_snapshot_object_id;
  latest_snapshot_seq = or_zero r.latest_snapshot_seq;
}

-- the cursor from which a root's events are needed; a root is created by an event, above 0
abbrev pub contribution : RootRow → ℕ
contribution r = elim r.latest_snapshot_seq [ none ↦ r.created_seq - 1 | some seq ↦ seq ]

-- the loop over the roots, with `minSet` and the minimum so far
unfoldable pub min_loop : Bool → ℕ → List RootRow → ℕ
min_loop min_set seq [] = seq
min_loop min_set seq (r ∷ rs) =
    min_loop Bool.true
      (if not min_set
        then contribution r
        else if ltb (contribution r) seq
        then contribution r
        else seq)
      rs

unfoldable pub handle_bootstrap : String → Session → Db → Reply BootstrapResponse
handle_bootstrap method sess d = do
  fail_if (not (str_eq method "GET")) method_not_allowed
  let roots = active_roots sess.workspace_id d
  seq ← or_refuse (refusal 500 "db_error" "database error") (current_seq sess.workspace_id d)
  ok (record {
    workspace_id = sess.workspace_id;
    current_seq = seq;
    bootstrap_after_seq = min_loop Bool.false seq roots;
    roots = map bootstrap_root roots;
  })
