-- ===== src/Client/State/Retry.antt =====
-- When a pending operation that failed is tried again (internal/client/state/db.go).
use syna.Prelude.{
  ℕ, zero, suc, ◌+◌, ◌*◌, ◌≤◌, ◌<◌, String, str_eq, ◌≡◌, refl, sym, ◌∙◌, ap, true, false, ◌||◌,
  some, List, [], ◌∷◌, map, arith, leb, ltb, Bool-cases, Option-cases, inl, inr, is_some,
}
use syna.Prelude.Result.{ok, ok-injective}
use syna.Table.{find, any, select, update, any-find}
use syna.Client.State.Schema.{StateDb, PendingRow}
use syna.Client.State.Pending.{
  is_op, is_ready, insert_op, sort_ops, pending_op_of, list_pending_ops_ready, change_op, bumped,
  bump_pending_op_retry, pending_op_backoff, op_leb,
}

-- one second
abbrev pub second : ℕ
second = 1_000_000_000

-- The wait before a retry is from one second to 64 seconds.
pub pending_op_backoff-bounds :
    (n : ℕ) → (second ≤ pending_op_backoff n) × (pending_op_backoff n ≤ 64 * second)
unfolding pending_op_backoff
pending_op_backoff-bounds zero = omega arith
pending_op_backoff-bounds (suc zero) = omega arith
pending_op_backoff-bounds (suc (suc zero)) = omega arith
pending_op_backoff-bounds (suc (suc (suc zero))) = omega arith
pending_op_backoff-bounds (suc (suc (suc (suc zero)))) = omega arith
pending_op_backoff-bounds (suc (suc (suc (suc (suc zero))))) = omega arith
pending_op_backoff-bounds (suc (suc (suc (suc (suc (suc zero)))))) = omega arith
pending_op_backoff-bounds (suc (suc (suc (suc (suc (suc (suc n))))))) =
    let late : ltb 6 (suc (suc (suc (suc (suc (suc (suc n))))))) ≡ true = ground arith in
    rw (late, pending_op_backoff) (omega arith)

any-insert_op :
    (op_id : String) (r : PendingRow) (rows : List PendingRow)
    → any (is_op op_id) (insert_op r rows) ≡ (is_op op_id r || any (is_op op_id) rows)
unfolding any insert_op
any-insert_op op_id r [] = refl
any-insert_op op_id r (s ∷ rows) = elim (Bool-cases (op_leb r s)) [
  | inl first ↦ rw first refl
  | inr later ↦ rw later (ground (arith, any-insert_op op_id r rows))
]

any-read :
    (op_id : String) (rows : List PendingRow)
    → any (λ o. str_eq o.op_id op_id) (map pending_op_of rows) ≡ any (is_op op_id) rows
unfolding any pending_op_of
any-read op_id [] = refl
any-read op_id (r ∷ rows) = ground (arith, any-read op_id rows)

any-sort_ops :
    (op_id : String) (rows : List PendingRow)
    → any (is_op op_id) (sort_ops rows) ≡ any (is_op op_id) rows
unfolding any sort_ops
any-sort_ops op_id [] = refl
any-sort_ops op_id (r ∷ rows) =
    ground (arith, any-insert_op op_id r (sort_ops rows), any-sort_ops op_id rows)

-- what the list of the ready operations has is what the table has
any-listed :
    (op_id : String) (rows : List PendingRow)
    → any (λ o. str_eq o.op_id op_id) (map pending_op_of (sort_ops rows)) ≡ any (is_op op_id) rows
any-listed op_id rows = any-read op_id (sort_ops rows) ∙ any-sort_ops op_id rows

waiting :
    (op_id error : String) (at t : ℕ) (rows : List PendingRow)
    → t < at
    → any (is_op op_id) (select (is_ready t) (update (is_op op_id) (bumped error at) rows)) ≡ false
unfolding any select update
waiting op_id error at t [] h = refl
waiting op_id error at t (r ∷ rows) h =
    let rest = waiting op_id error at t rows h in
    elim (Bool-cases (is_op op_id r)) [
      | inl here ↦ let held : leb at t ≡ false = ground (arith, h) in rw here (rw held rest)
      | inr elsewhere ↦ rw elsewhere (ground (arith, rest, elsewhere))
    ]

due :
    (op_id error : String) (at t : ℕ) (rows : List PendingRow)
    → at ≤ t
    → any (is_op op_id) rows ≡ true
    → any (is_op op_id) (select (is_ready t) (update (is_op op_id) (bumped error at) rows)) ≡ true
unfolding any select update
due op_id error at t [] h there = cc
due op_id error at t (r ∷ rows) h there = elim (Bool-cases (is_op op_id r)) [
  | inl here ↦
      let ready : leb at t ≡ true = ground (arith, h) in rw here (rw ready (ground (arith, here)))
  | inr elsewhere ↦
      let rest = due op_id error at t rows h (ground (arith, elsewhere)) in
      rw elsewhere (ground (arith, rest, elsewhere))
]

-- the row of a retry that was recorded, and the database after it
bump-inversion :
    (op_id error : String) (now : ℕ) (d : StateDb) {d' : StateDb}
    → bump_pending_op_retry op_id error now d ≡ ok d'
    → (r : PendingRow) × (find (is_op op_id) d.pending_ops ≡ some r)
      × (update (is_op op_id) (bumped error (now + pending_op_backoff r.retry_count)) d.pending_ops
          ≡ d'.pending_ops)
unfolding bump_pending_op_retry change_op
bump-inversion op_id error now d h = elim (Option-cases (find (is_op op_id) d.pending_ops)) [
  | inl missing ↦ absurd (ground (arith, missing))
  | inr (r, found) ↦ (r, found, ap (λ x. x.pending_ops) (ok-injective (rw found at h)))
]

-- After a failure of an operation was recorded, the operation is not among the ready ones for at
-- least a second.
pub bump_pending_op_retry-waits :
    (op_id error : String) (now t : ℕ) (d : StateDb) {d' : StateDb}
    → bump_pending_op_retry op_id error now d ≡ ok d'
    → t < now + second
    → any (λ o. str_eq o.op_id op_id) (list_pending_ops_ready t d') ≡ false
unfolding list_pending_ops_ready
bump_pending_op_retry-waits op_id error now t d {d'} h early =
    let (r, found, same) = bump-inversion op_id error now d h in
    let bounds = pending_op_backoff-bounds r.retry_count in
    any-listed op_id (select (is_ready t) d'.pending_ops)
    ∙ ap (λ rows. any (is_op op_id) (select (is_ready t) rows)) (sym same)
    ∙ waiting op_id error (now + pending_op_backoff r.retry_count) t d.pending_ops
        (omega (arith, bounds))

-- After a failure of an operation was recorded, the operation is among the ready ones from 64 seconds
-- on.
pub bump_pending_op_retry-returns :
    (op_id error : String) (now t : ℕ) (d : StateDb) {d' : StateDb}
    → bump_pending_op_retry op_id error now d ≡ ok d'
    → now + 64 * second ≤ t
    → any (λ o. str_eq o.op_id op_id) (list_pending_ops_ready t d') ≡ true
unfolding list_pending_ops_ready
bump_pending_op_retry-returns op_id error now t d {d'} h late =
    let (r, found, same) = bump-inversion op_id error now d h in
    let bounds = pending_op_backoff-bounds r.retry_count in
    any-listed op_id (select (is_ready t) d'.pending_ops)
    ∙ ap (λ rows. any (is_op op_id) (select (is_ready t) rows)) (sym same)
    ∙ due op_id error (now + pending_op_backoff r.retry_count) t d.pending_ops
        (omega (arith, bounds)) (any-find (is_op op_id) d.pending_ops ∙ ap is_some found)
