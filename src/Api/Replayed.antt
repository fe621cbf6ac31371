-- ===== src/Api/Replayed.antt =====
-- A finished login (`handleSessionFinish` of internal/server/api/session.go) that is sent again.
use syna.Prelude.{ℕ, String, str_eq, ◌≡◌, refl, sym, ◌∙◌, ap, not, Option, some, inl, inr}
use syna.Prelude.Result.{ok, err, >>=-eq-ok, fail_if-eq-ok, Result-cases}
use syna.Server.Schema.{Db}
use syna.Server.Sessions.{load_challenge}
use syna.Api.Replies.{Refusal, refusal, SessionFinishRequest, SessionFinishResponse}
use syna.Api.Login.{
  Packages, Proof, session_nonce_size, bad_client_nonce, parse_fixed_base64, check_session_finish,
  handle_session_finish,
}
use syna.Api.Proved.{
  IsProved, handle_session_finish-IsProved, parse_fixed_base64-eq-ok, reply_ok, answer_refused,
}

abbrev pub challenge_not_found : Refusal
challenge_not_found = refusal 401 "challenge_not_found" ""

some_inverse : {A : Type 0} {a b : A} → ◌≡◌ {A = Option A} (some a) (some b) → a ≡ b
some_inverse h = cc

module _ (packages : Packages) (method : String) (req : SessionFinishRequest) where
  check_session_finish-spent :
      (now later : ℕ) (d d' : Db) {proof : Proof}
      → check_session_finish packages method (some req) now d ≡ ok proof
      → IsProved packages req now d d'
      → check_session_finish packages method (some req) later d' ≡ err challenge_not_found
  unfolding check_session_finish
  check_session_finish-spent now later d d' h p =
      let (is_post, posted) = fail_if-eq-ok (not (str_eq method "POST")) _ _ h in
      let (has_workspace, named) = fail_if-eq-ok (str_eq req.workspace_id "") _ _ posted in
      let (has_device, from) = fail_if-eq-ok (str_eq req.device_id "") _ _ named in
      let (nonce, read, _) =
        >>=-eq-ok (parse_fixed_base64 packages req.client_nonce session_nonce_size bad_client_nonce)
          _ from in
      let parsed =
        parse_fixed_base64-eq-ok packages req.client_nonce session_nonce_size bad_client_nonce
          read in
      let same = some_inverse (sym p.nonce_read ∙ parsed) in
      let gone =
        ap (λ x. load_challenge req.workspace_id req.device_id x d') (sym same) ∙ p.spent in
      rw (is_post, has_workspace, has_device, read, gone) refl

  -- A finish of a login that was answered with a session is refused when it is sent again, at
  -- whatever time: its challenge is not found, and the database stays as it is.
  pub handle_session_finish-replayed :
      (token again : String) (ttl now later : ℕ) (d : Db) {d' : Db} {resp : SessionFinishResponse}
      → handle_session_finish packages method (some req) token ttl now d ≡ (d', ok resp)
      → handle_session_finish packages method (some req) again ttl later d'
        ≡ (d', err challenge_not_found)
  unfolding handle_session_finish
  handle_session_finish-replayed token again ttl now later d {d'} h =
      elim (Result-cases (check_session_finish packages method (some req) now d)) [
        | inl (r, failed) ↦
            absurd (answer_refused (reply_ok (rw (failed, handle_session_finish) at h)).1)
        | inr (proof, passed) ↦
            let spent =
              check_session_finish-spent now later d d' passed
                (handle_session_finish-IsProved packages method token req ttl now d h) in
            rw (spent, handle_session_finish) refl
      ]
