-- ===== src/Client/State/Tasks.antt =====
-- What each call leaves of the queue of pending operations (internal/client/state/db.go).
use mathlib.Core.Path.{subst}
use syna.Prelude.{
  ℕ, ◌+◌, ◌≤◌, String, str_eq, eq_iff, ◌≡◌, refl, ap, Bool, true, false, none, List, [], ◌∷◌, arith,
  Bool-cases, Option-cases, inl, inr,
}
use syna.Prelude.Result.{ok, ok-injective}
use syna.Table.{
  find, any, count, select, delete, Unique, Unique-update, Unique-delete, count_zero, any_mono,
}
use syna.Client.State.Schema.{
  StateDb, PendingRow, OpType, rescan_root, recover_initial_root, root_removal, other_op,
}
use syna.Client.State.Pending.{
  is_op, same_type, is_queued, insert_op, sort_ops, first_op, queued_op, new_op, insert_pending,
  change_op, pending_op_id, queue_op, bumped, bump_pending_op_retry, pending_op_backoff,
}

-- the primary key, and what an operation does
abbrev pub same_id : PendingRow → PendingRow → Bool
same_id r s = is_op r.op_id s

abbrev pub same_task : PendingRow → PendingRow → Bool
same_task r s = is_queued r.root_id r.op_type s

-- No two rows have one key, and no two do the same.
pub record IsQueue (rows : List PendingRow) : Type 0 where
  pub ids : Unique same_id rows
  pub tasks : Unique same_task rows

insert_op-ne-nil :
    (r : PendingRow) (rows : List PendingRow) → first_op (insert_op r rows) ≡ none → ⊥
unfolding insert_op
insert_op-ne-nil r [] h = cc
insert_op-ne-nil r (s ∷ rows) h = ground (arith, h)

-- The SELECT found none: there is none.
queued_op-none :
    (root_id : String) (t : OpType) (rows : List PendingRow)
    → first_op (sort_ops (select (is_queued root_id t) rows)) ≡ none
    → any (is_queued root_id t) rows ≡ false
unfolding any select sort_ops
queued_op-none root_id t [] h = refl
queued_op-none root_id t (r ∷ rows) h = elim (Bool-cases (is_queued root_id t r)) [
  | inl here ↦
      absurd (insert_op-ne-nil r (sort_ops (select (is_queued root_id t) rows)) (rw here at h))
  | inr elsewhere ↦ rw elsewhere (queued_op-none root_id t rows (rw elsewhere at h))
]

insert_pending-IsQueue :
    (op_id root_id : String) (t : OpType) (base created : ℕ) (d : StateDb) {d' : StateDb}
    → insert_pending (new_op op_id root_id t base created) d ≡ ok d'
    → any (is_queued root_id t) d.pending_ops ≡ false
    → IsQueue d.pending_ops
    → IsQueue d'.pending_ops
unfolding insert_pending
insert_pending-IsQueue op_id root_id t base created d h fresh q =
    elim (Bool-cases (any (is_op op_id) d.pending_ops)) [
      | inl taken ↦ absurd (ground (arith, taken))
      | inr free ↦
          let same = ap (λ x. x.pending_ops) (ok-injective (rw free at h)) in
          rw (← same) (record { ids = (free, q.ids); tasks = (fresh, q.tasks) })
    ]

-- A change that keeps what an operation is.
change_op-IsQueue :
    (op_id : String) (f : PendingRow → PendingRow) (d : StateDb)
    → ((r : PendingRow)
        → ((f r).op_id ≡ r.op_id)
          × ((f r).root_id ≡ r.root_id)
          × ((f r).rel_path ≡ r.rel_path)
          × ((f r).op_type ≡ r.op_type))
    → IsQueue d.pending_ops
    → IsQueue (change_op op_id f d).pending_ops
unfolding change_op
change_op-IsQueue op_id f d keep q = record {
  ids =
      Unique-update same_id f (λ r s. ap (λ x. str_eq s.op_id x) (keep r).0)
        (λ r s. ap (λ x. str_eq x r.op_id) (keep s).0) (is_op op_id) d.pending_ops q.ids;
  tasks =
      Unique-update same_task f (λ r s. let (_, root, _, t) = keep r in rw (root, t) refl)
        (λ r s. let (_, root, path, t) = keep s in rw (root, path, t) refl) (is_op op_id)
        d.pending_ops q.tasks;
}

pub queue_op-IsQueue :
    (format_time : ℕ → String) (root_id : String) (t : OpType) (base : ℕ)
    (again : PendingRow → PendingRow) (created : ℕ) (d : StateDb) {d' : StateDb}
    → ((r : PendingRow)
        → ((again r).op_id ≡ r.op_id)
          × ((again r).root_id ≡ r.root_id)
          × ((again r).rel_path ≡ r.rel_path)
          × ((again r).op_type ≡ r.op_type))
    → queue_op format_time root_id t base again created d (queued_op root_id t d) ≡ ok d'
    → IsQueue d.pending_ops
    → IsQueue d'.pending_ops
unfolding queued_op
queue_op-IsQueue format_time root_id t base again created d keep h q =
    elim (Option-cases (first_op (sort_ops (select (is_queued root_id t) d.pending_ops)))) [
      | inl missing ↦
          insert_pending-IsQueue (pending_op_id format_time root_id created) root_id t base created
            d (rw missing at h) (queued_op-none root_id t d.pending_ops missing) q
      | inr (existing, found) ↦
          subst (λ x. IsQueue x.pending_ops) (ok-injective (rw found at h))
            (change_op-IsQueue existing.op_id again d keep q)
    ]

pub bump-IsQueue :
    (op_id error : String) (now : ℕ) (d : StateDb) {d' : StateDb}
    → bump_pending_op_retry op_id error now d ≡ ok d'
    → IsQueue d.pending_ops
    → IsQueue d'.pending_ops
unfolding bump_pending_op_retry
bump-IsQueue op_id error now d h q = elim (Option-cases (find (is_op op_id) d.pending_ops)) [
  | inl missing ↦ absurd (ground (arith, missing))
  | inr (r, found) ↦
      subst (λ x. IsQueue x.pending_ops) (ok-injective (rw found at h))
        (change_op-IsQueue op_id (bumped error (now + pending_op_backoff r.retry_count)) d
          (λ s. (refl, refl, refl, refl)) q)
]

pub delete-IsQueue :
    (p : PendingRow → Bool) (rows : List PendingRow) → IsQueue rows → IsQueue (delete p rows)
delete-IsQueue p rows q = record {
  ids = Unique-delete same_id p rows q.ids;
  tasks = Unique-delete same_task p rows q.tasks;
}

same_type_sound : (a b : OpType) → same_type a b ≡ true → a ≡ b
same_type_sound rescan_root rescan_root h = refl
same_type_sound rescan_root recover_initial_root h = cc
same_type_sound rescan_root root_removal h = cc
same_type_sound rescan_root (other_op t) h = cc
same_type_sound recover_initial_root rescan_root h = cc
same_type_sound recover_initial_root recover_initial_root h = refl
same_type_sound recover_initial_root root_removal h = cc
same_type_sound recover_initial_root (other_op t) h = cc
same_type_sound root_removal rescan_root h = cc
same_type_sound root_removal recover_initial_root h = cc
same_type_sound root_removal root_removal h = refl
same_type_sound root_removal (other_op t) h = cc
same_type_sound (other_op s) rescan_root h = cc
same_type_sound (other_op s) recover_initial_root h = cc
same_type_sound (other_op s) root_removal h = cc
same_type_sound (other_op s) (other_op t) h = ap other_op ((eq_iff s t).0 h)

-- Two rows of one task have one task.
same_task_of :
    (root_id : String) (t : OpType) (r s : PendingRow)
    → is_queued root_id t r ≡ true
    → is_queued root_id t s ≡ true
    → same_task r s ≡ true
same_task_of root_id t r s hr hs =
    let root = (eq_iff r.root_id root_id).0 (ground (arith, hr)) in
    let kind = same_type_sound r.op_type t (ground (arith, hr)) in rw (root, kind) hs

pub tasks_once :
    (root_id : String) (t : OpType) (rows : List PendingRow)
    → Unique same_task rows
    → count (is_queued root_id t) rows ≤ 1
unfolding count
tasks_once root_id t [] u = omega arith
tasks_once root_id t (r ∷ rows) u = elim (Bool-cases (is_queued root_id t r)) [
  | inl here ↦
      let rest = count_zero (is_queued root_id t) rows (
        any_mono (same_task r) (is_queued root_id t) (λ s. same_task_of root_id t r s here) rows
          u.0) in
      ground (arith, here, rest)
  | inr elsewhere ↦ ground (arith, elsewhere, tasks_once root_id t rows u.1)
]
