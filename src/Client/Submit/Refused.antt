-- ===== src/Client/Submit/Refused.antt =====
-- A removal of a root that the server refuses (internal/client/daemon/daemon.go with
-- internal/server/api/events.go).
use syna.Prelude.{
  ℕ, ◌+◌, String, ◌≡◌, refl, sym, ap, ◌∙◌, false, some, arith, Option-cases, inl, inr,
}
use syna.Prelude.Result.{Result, err, Result-cases}
use syna.Protocol.{EventSubmitRequest}
use syna.Table.{find, any, any-update}
use syna.Server.Schema.{Db, Session}
use syna.Server.Errors.{DbError, root_incarnation_mismatch, path_head_mismatch}
use syna.Server.Events.{submit_event}
use syna.Hub.{Hub}
use syna.Api.{Refusal, submit_refusal, handle_event_submit}
use syna.Client.State.{StateDb, is_op, change_op, bumped, bump_pending_op_retry, pending_op_backoff}
use syna.Client.Submit.Defs.{
  error_text, http_error_text, submit_error, is_benign_root_remove_error, flush_root_remove,
  or_same,
}

-- texts without a capital letter, of those that a refused submission has, stay as they are
abbrev pub IsToLower : (String → String) → Type 0
IsToLower to_lower =
    (to_lower "root_incarnation_mismatch" ≡ "root_incarnation_mismatch")
    × (to_lower "path_head_mismatch" ≡ "path_head_mismatch")
    × (to_lower "event_rejected: event rejected" ≡ "event_rejected: event rejected")

module _ (to_lower : String → String) (format_number : ℕ → String) where
  error_not_benign :
      (seq : ℕ) (path_id : String) (e : DbError)
      → IsToLower to_lower
      → is_benign_root_remove_error to_lower
          (submit_error format_number seq path_id (submit_refusal e))
        ≡ false
  unfolding is_benign_root_remove_error submit_error error_text http_error_text
  error_not_benign seq path_id (root_incarnation_mismatch n) (a, b, c) = rw a refl
  error_not_benign seq path_id (path_head_mismatch n) (a, b, c) = rw b refl
  error_not_benign seq path_id _ (a, b, c) = rw c refl

  refused_by :
      (sess : Session) (req : EventSubmitRequest) (now : ℕ) (d : Db) (h : Hub) {r : Refusal}
      → handle_event_submit sess (some req) now d h ≡ err r
      → (e : DbError) × (submit_refusal e ≡ r)
  unfolding handle_event_submit
  refused_by sess req now d h {r} refused = elim (Result-cases (submit_event sess req now d)) [
    | inl (e, why) ↦ (e, err-injective (rw why at refused))
    | inr (a, done) ↦ absurd (ground (arith, (rw done at refused)))
  ]
    where
      err-injective :
          {A : Type 0} {x y : Refusal} → ◌≡◌ {A = Result Refusal A} (err x) (err y) → x ≡ y
      err-injective same = cc

  bumped_stays :
      (op_id text : String) (now : ℕ) (d : StateDb)
      → any (is_op op_id) (or_same d (bump_pending_op_retry op_id text now d)).pending_ops
        ≡ any (is_op op_id) d.pending_ops
  unfolding bump_pending_op_retry change_op
  bumped_stays op_id text now d = elim (Option-cases (find (is_op op_id) d.pending_ops)) [
    | inl missing ↦ rw missing refl
    | inr (r, found) ↦ rw found (
        any-update (is_op op_id) (bumped text (now + pending_op_backoff r.retry_count)) (λ x. refl)
          (is_op op_id) d.pending_ops)
  ]

  -- Where to_lower keeps the lower-case texts, a queued root_remove that the server refuses, for
  -- whatever reason, stays in the queue and stops the flush.
  pub flush_root_remove-refused :
      (sess : Session) (req : EventSubmitRequest) (at : ℕ) (server : Db) (h : Hub) {r : Refusal}
      (op_id path_id : String) (seq now : ℕ) (d : StateDb)
      → IsToLower to_lower
      → handle_event_submit sess (some req) at server h ≡ err r
      → (any
            (is_op op_id)
            (flush_root_remove to_lower op_id now d
              (some (submit_error format_number seq path_id r))).0.pending_ops
          ≡ any (is_op op_id) d.pending_ops)
        × ((flush_root_remove to_lower op_id now d
              (some (submit_error format_number seq path_id r))).1
            ≡ false)
  unfolding flush_root_remove
  flush_root_remove-refused sess req at server h {r} op_id path_id seq now d lower refused =
      let (e, why) = refused_by sess req at server h refused in
      let not_benign : is_benign_root_remove_error to_lower
            (submit_error format_number seq path_id r)
          ≡ false =
        ap (λ x. is_benign_root_remove_error to_lower (submit_error format_number seq path_id x))
          (sym why)
        ∙ error_not_benign seq path_id e lower in
      rw not_benign
        (bumped_stays op_id (error_text (submit_error format_number seq path_id r)) now d, refl)
