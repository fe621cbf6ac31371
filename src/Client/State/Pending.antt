-- ===== src/Client/State/Pending.antt =====
-- internal/client/state/db.go: the table `pending_ops`, the queue of what is still to be done. The
-- format of a time is the time package's, an argument.
use Prim.Native.Nat.{◌^◌}
use Prim.Native.String.{◌++◌ as append}
use syna.Prelude.{
  ℕ, ◌+◌, ◌*◌, String, str_eq, ◌==◌, Bool, true, false, ◌&&◌, ◌||◌, Option, none, some, List, [],
  ◌∷◌, map, leb, ltb, length, if◌then◌else◌,
}
use syna.Prelude.Result.{Result, ok, err}
use syna.Table.{find, any, select, update, delete}
use syna.Client.State.Schema.{
  StateDb, PendingOp, PendingRow, OpType, rescan_root, recover_initial_root, root_removal, other_op,
}
use syna.Client.State.Nulls.{null_text, text_or_empty, number_or_zero}
use syna.Client.State.Order.{text_leb}

-- sql.ErrNoRows, and a primary key that is already there
pub data StateError : Type 0 where
  no_rows key_taken : StateError

abbrev pub is_op : String → PendingRow → Bool
is_op op_id r = str_eq r.op_id op_id

abbrev pub same_type : OpType → OpType → Bool
same_type rescan_root rescan_root = true
same_type recover_initial_root recover_initial_root = true
same_type root_removal root_removal = true
same_type (other_op s) (other_op t) = str_eq s t
same_type _ _ = false

abbrev pub is_queued : String → OpType → PendingRow → Bool
is_queued root_id op_type r =
    str_eq r.root_id root_id && str_eq r.rel_path "" && same_type r.op_type op_type

-- ORDER BY created_at ASC, op_id ASC
abbrev pub op_leb : PendingRow → PendingRow → Bool
op_leb a b =
    ltb a.created_at b.created_at || (a.created_at == b.created_at && text_leb a.op_id b.op_id)

unfoldable pub insert_op : PendingRow → List PendingRow → List PendingRow
insert_op r [] = r ∷ []
insert_op r (s ∷ rest) =
    let later = insert_op r rest in if op_leb r s then r ∷ s ∷ rest else s ∷ later

unfoldable pub sort_ops : List PendingRow → List PendingRow
sort_ops [] = []
sort_ops (r ∷ rs) = insert_op r (sort_ops rs)

-- scanPendingOps
unfoldable pub pending_op_of : PendingRow → PendingOp
pending_op_of r = record {
  op_id = r.op_id;
  root_id = r.root_id;
  rel_path = r.rel_path;
  op_type = r.op_type;
  base_seq = r.base_seq;
  payload_json = r.payload_json;
  status = r.status;
  retry_count = r.retry_count;
  last_error = text_or_empty r.last_error;
  next_retry_at = number_or_zero r.next_retry_at;
  created_at = r.created_at;
}

unfoldable pub count_pending_ops : StateDb → ℕ
count_pending_ops d = length d.pending_ops

unfoldable pub list_pending_ops : StateDb → List PendingOp
list_pending_ops d = map pending_op_of (sort_ops d.pending_ops)

abbrev pub is_ready : ℕ → PendingRow → Bool
is_ready now r = elim r.next_retry_at [ none ↦ true | some t ↦ leb t now ]

unfoldable pub list_pending_ops_ready : ℕ → StateDb → List PendingOp
list_pending_ops_ready now d = map pending_op_of (sort_ops (select (is_ready now) d.pending_ops))

-- the row that the SELECT with LIMIT 1 returns
abbrev pub first_op : List PendingRow → Option PendingRow
first_op [] = none
first_op (r ∷ rest) = some r

unfoldable pub queued_op : String → OpType → StateDb → Option PendingRow
queued_op root_id op_type d = first_op (sort_ops (select (is_queued root_id op_type) d.pending_ops))

abbrev pub new_op : String → String → OpType → ℕ → ℕ → PendingRow
new_op op_id root_id op_type base_seq created_at = record {
  op_id = op_id;
  root_id = root_id;
  rel_path = "";
  op_type = op_type;
  base_seq = base_seq;
  payload_json = "{}";
  status = "queued";
  retry_count = 0;
  last_error = none;
  next_retry_at = none;
  created_at = created_at;
}

-- INSERT into pending_ops, whose primary key is `op_id`
unfoldable pub insert_pending : PendingRow → StateDb → Result StateError StateDb
insert_pending r d =
    if any (is_op r.op_id) d.pending_ops
    then err key_taken
    else ok (record d { pending_ops = r ∷ d.pending_ops })

abbrev pub requeued : PendingRow → PendingRow
requeued r = record r { status = "queued"; next_retry_at = none }

unfoldable pub change_op : String → (PendingRow → PendingRow) → StateDb → StateDb
change_op op_id f d = record d { pending_ops = update (is_op op_id) f d.pending_ops }

module _ (format_time : ℕ → String) where
  unfoldable pub pending_op_id : String → ℕ → String
  pending_op_id root_id created_at = append root_id (append ":" (format_time created_at))

  -- the three functions below: a row that is there already is queued again
  abbrev pub queue_op :
      String
      → OpType
      → ℕ
      → (PendingRow → PendingRow)
      → ℕ
      → StateDb
      → Option PendingRow
      → Result StateError StateDb
  queue_op root_id op_type base_seq again created_at d none =
      insert_pending (new_op (pending_op_id root_id created_at) root_id op_type base_seq created_at)
        d
  queue_op root_id op_type base_seq again created_at d (some existing) =
      ok (change_op existing.op_id again d)

  unfoldable pub queue_root_rescan : String → ℕ → StateDb → Result StateError StateDb
  queue_root_rescan root_id created_at d =
      queue_op root_id rescan_root 0 requeued created_at d (queued_op root_id rescan_root d)

  unfoldable pub queue_initial_root_recovery : String → ℕ → ℕ → StateDb → Result StateError StateDb
  queue_initial_root_recovery root_id created_seq created_at d =
      queue_op root_id recover_initial_root created_seq
        (λ r. record (requeued r) { base_seq = created_seq }) created_at d
        (queued_op root_id recover_initial_root d)

  unfoldable pub queue_root_remove : String → ℕ → StateDb → Result StateError StateDb
  queue_root_remove root_id created_at d =
      queue_op root_id root_removal 0 requeued created_at d (queued_op root_id root_removal d)

unfoldable pub delete_pending_op : String → StateDb → StateDb
delete_pending_op op_id d = record d { pending_ops = delete (is_op op_id) d.pending_ops }

-- in nanoseconds: 2 ^ retry_count seconds, from the seventh retry on 64 seconds
unfoldable pub pending_op_backoff : ℕ → ℕ
pending_op_backoff retry_count = 2 ^ (if ltb 6 retry_count then 6 else retry_count) * 1_000_000_000

abbrev pub bumped : String → ℕ → PendingRow → PendingRow
bumped error at r = record r {
  status = "queued";
  retry_count = r.retry_count + 1;
  last_error = null_text error;
  next_retry_at = some at;
}

abbrev pub bump_found :
    String → String → ℕ → StateDb → Option PendingRow → Result StateError StateDb
bump_found op_id error now d none = err no_rows
bump_found op_id error now d (some r) =
    ok (change_op op_id (bumped error (now + pending_op_backoff r.retry_count)) d)

unfoldable pub bump_pending_op_retry : String → String → ℕ → StateDb → Result StateError StateDb
bump_pending_op_retry op_id error now d =
    bump_found op_id error now d (find (is_op op_id) d.pending_ops)
