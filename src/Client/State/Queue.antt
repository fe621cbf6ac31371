-- ===== src/Client/State/Queue.antt =====
-- The queue of pending operations (internal/client/state/db.go) over time.
use syna.Prelude.{ℕ, ◌≤◌, String, ◌≡◌, refl}
use syna.Prelude.Result.{ok}
use syna.Table.{count, Unique}
use syna.Client.State.Schema.{
  StateDb, new_state, ConnectionState, IssueKind, OpType, rescan_root, recover_initial_root,
  root_removal,
}
use syna.Client.State.Pending.{
  is_op, is_queued, requeued, queue_root_rescan, queue_initial_root_recovery, queue_root_remove,
  delete_pending_op, bump_pending_op_retry,
}
use syna.Client.State.Roots.{delete_root_state}
use syna.Client.State.Workspace.{clear_workspace_to}
use syna.Client.State.Tasks.{
  IsQueue, same_id, queue_op-IsQueue, bump-IsQueue, delete-IsQueue, tasks_once,
}

-- The calls that change the queue; the other operations of the database do not touch it.
module _ (format_time : ℕ → String) where
  pub data QueueStep (d : StateDb) : StateDb → Type 0 where
    rescan :
        (root_id : String) (created : ℕ) {d' : StateDb}
        → queue_root_rescan format_time root_id created d ≡ ok d'
        → QueueStep d d'
    recover :
        (root_id : String) (seq created : ℕ) {d' : StateDb}
        → queue_initial_root_recovery format_time root_id seq created d ≡ ok d'
        → QueueStep d d'
    remove :
        (root_id : String) (created : ℕ) {d' : StateDb}
        → queue_root_remove format_time root_id created d ≡ ok d'
        → QueueStep d d'
    bump :
        (op_id error : String) (now : ℕ) {d' : StateDb}
        → bump_pending_op_retry op_id error now d ≡ ok d'
        → QueueStep d d'
    done : (op_id : String) {d' : StateDb} → d' ≡ delete_pending_op op_id d → QueueStep d d'
    forgotten :
        (root_id : String) {d' : StateDb} → d' ≡ delete_root_state root_id d → QueueStep d d'
    cleared :
        (connection : ConnectionState) (issue : IssueKind) (message : String) {d' : StateDb}
        → d' ≡ clear_workspace_to connection issue message d
        → QueueStep d d'
    -- any call that leaves the table as it is
    other : {d' : StateDb} → d'.pending_ops ≡ d.pending_ops → QueueStep d d'

  pub data QueueReach (d : StateDb) : StateDb → Type 0 where
    here : QueueReach d d
    next : {e f : StateDb} → QueueReach d e → QueueStep e f → QueueReach d f

  QueueStep-IsQueue :
      {d d' : StateDb} → QueueStep d d' → IsQueue d.pending_ops → IsQueue d'.pending_ops
  unfolding queue_root_rescan queue_initial_root_recovery queue_root_remove delete_pending_op
      delete_root_state clear_workspace_to
  QueueStep-IsQueue (rescan root_id created h) q =
      queue_op-IsQueue format_time root_id rescan_root 0 requeued created _
        (λ r. (refl, refl, refl, refl)) h q
  QueueStep-IsQueue (recover root_id seq created h) q =
      queue_op-IsQueue format_time root_id recover_initial_root seq _ created _
        (λ r. (refl, refl, refl, refl)) h q
  QueueStep-IsQueue (remove root_id created h) q =
      queue_op-IsQueue format_time root_id root_removal 0 requeued created _
        (λ r. (refl, refl, refl, refl)) h q
  QueueStep-IsQueue (bump op_id error now h) q = bump-IsQueue op_id error now _ h q
  QueueStep-IsQueue (done op_id e) q = rw e (delete-IsQueue (is_op op_id) _ q)
  QueueStep-IsQueue (forgotten root_id e) q = rw e (delete-IsQueue _ _ q)
  QueueStep-IsQueue (cleared connection issue message e) q = rw e (record { ids = tt; tasks = tt })
  QueueStep-IsQueue (other same) q = rw same q

  QueueReach-IsQueue :
      {d d' : StateDb} → QueueReach d d' → IsQueue d.pending_ops → IsQueue d'.pending_ops
  QueueReach-IsQueue here q = q
  QueueReach-IsQueue (next r st) q = QueueStep-IsQueue st (QueueReach-IsQueue r q)

  -- Whatever is queued, retried, finished, forgotten or cleared, in any order from a new database, the
  -- queue has for each root at most one operation of a kind, and no two operations have one id.
  pub QueueReach-once :
      {d : StateDb} (root_id : String) (t : OpType)
      → QueueReach new_state d
      → (count (is_queued root_id t) d.pending_ops ≤ 1) × Unique same_id d.pending_ops
  QueueReach-once root_id t r =
      let q = QueueReach-IsQueue r (record { ids = tt; tasks = tt }) in
      (tasks_once root_id t _ q.tasks, q.ids)
