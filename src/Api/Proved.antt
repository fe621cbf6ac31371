-- ===== src/Api/Proved.antt =====
-- What a finished login (`handleSessionFinish` of internal/server/api/session.go) proves: the client
-- has the key of the workspace and answers a challenge that is not spent.
use mathlib.Core.Path.{subst}
use syna.Prelude.{
  ℕ, ◌≤◌, String, str_eq, eq_iff, ◌==◌, ◌≡◌, ◌≢◌, refl, sym, ◌∙◌, ap, true, not, some, arith,
  Option-cases, inl, inr, ltb,
}
use syna.Prelude.Result.{Result, ok, err, >>=-eq-ok, fail_if-eq-ok, ok-injective, Result-cases}
use syna.Table.{find-delete_self}
use syna.Server.Schema.{Db}
use syna.Server.Errors.{DbError, no_rows}
use syna.Server.Workspaces.{workspace_pub_key, current_seq}
use syna.Server.Sessions.{load_challenge, delete_challenge, create_session, is_challenge}
use syna.Api.Replies.{Reply, Refusal, refusal, SessionFinishRequest, SessionFinishResponse}
use syna.Api.Login.{
  Packages, Proof, session_nonce_size, public_key_size, signature_size, bad_client_nonce, or_refuse,
  parse_fixed_base64, verify_transcript, check_session_finish, finish_session,
  handle_session_finish,
}

pub or_refuse-eq-ok :
    {A : Type 0} (r : Refusal) (m : Result DbError A) {a : A} → or_refuse r m ≡ ok a → m ≡ ok a
or_refuse-eq-ok r (ok b) h = ap ok (ok-injective h)
or_refuse-eq-ok r (err e) h = cc

pub reply_ok :
    {A : Type 0} {d d' : Db} {m n : Reply A}
    → ◌≡◌ {A = Db × Reply A} (d, m) (d', n)
    → (d ≡ d') × (m ≡ n)
reply_ok h = (ap (λ p. p.0) h, ap (λ p. p.1) h)

pub answer_refused : {A : Type 0} {r : Refusal} {a : A} → ◌≢◌ {A = Reply A} (err r) (ok a)
answer_refused h = cc

module _ (packages : Packages) where
  -- The checks of a login that was let through, and the challenge it spent.
  pub record IsProved (req : SessionFinishRequest) (now : ℕ) (d d' : Db) : Type 0 where
    pub client_nonce : String
    pub server_nonce : String
    pub device_name : String
    pub until : ℕ
    pub key : String
    pub signature : String
    pub nonce_read : packages.parse_base64_raw req.client_nonce ≡ some client_nonce
    pub saved :
        load_challenge req.workspace_id req.device_id client_nonce d
        ≡ ok (server_nonce, device_name, until)
    pub current : now ≤ until
    pub answered : packages.parse_base64_raw req.server_nonce ≡ some server_nonce
    pub registered : workspace_pub_key req.workspace_id d ≡ ok key
    pub signature_read : packages.parse_base64_raw req.signature ≡ some signature
    pub signed :
        verify_transcript packages key req.workspace_id req.device_id client_nonce server_nonce
          signature
        ≡ true
    pub spent : load_challenge req.workspace_id req.device_id client_nonce d' ≡ err no_rows

  pub parse_fixed_base64-eq-ok :
      (value : String) (size : ℕ) (bad : Refusal) {raw : String}
      → parse_fixed_base64 packages value size bad ≡ ok raw
      → packages.parse_base64_raw value ≡ some raw
  unfolding parse_fixed_base64
  parse_fixed_base64-eq-ok value size bad h =
      elim (Option-cases (packages.parse_base64_raw value)) [
        | inl missing ↦ absurd (ground (arith, missing))
        | inr (raw, there) ↦ ground (arith, there)
      ]

  -- Once the challenge is deleted, a session leaves it so.
  create_session-spent :
      (token w device name nonce : String) (ttl now : ℕ) (d : Db) {d' : Db} {t : String}
      {until seq : ℕ}
      → create_session packages.sha256 token w device name ttl now
          (delete_challenge w device nonce d)
        ≡ ok (d', t, until, seq)
      → load_challenge w device nonce d' ≡ err no_rows
  unfolding create_session load_challenge delete_challenge
  create_session-spent token w device name nonce ttl now d h =
      let (seq, _, e) = >>=-eq-ok (current_seq w (delete_challenge w device nonce d)) _ h in
      let same = ap (λ (p : Db × String × ℕ × ℕ). p.0.session_challenges) (ok-injective e) in
      rw (← same) (
        rw
          (find-delete_self (is_challenge w device nonce) (is_challenge w device nonce) (λ r h. h)
            d.session_challenges)
          refl)

  finish_session-spent :
      (token : String) (ttl now : ℕ) (proof : Proof) (d : Db) {d' : Db}
      {resp : SessionFinishResponse}
      → finish_session packages token ttl now proof d ≡ (d', ok resp)
      → load_challenge proof.workspace_id proof.device_id proof.client_nonce d' ≡ err no_rows
  unfolding finish_session
  finish_session-spent token ttl now proof d h =
      let spent = delete_challenge proof.workspace_id proof.device_id proof.client_nonce d in
      elim (Result-cases (
        create_session packages.sha256 token proof.workspace_id proof.device_id proof.device_name
          ttl now spent)) [
            | inl (e, failed) ↦
                absurd (answer_refused (reply_ok (rw (failed, finish_session) at h)).1)
            | inr (made, returned) ↦
                subst
                  (λ x.
                    load_challenge proof.workspace_id proof.device_id proof.client_nonce x
                    ≡ err no_rows)
                  (reply_ok (rw (returned, finish_session) at h)).0
                  (create_session-spent token proof.workspace_id proof.device_id proof.device_name
                    proof.client_nonce ttl now d returned)
          ]

  check_session_finish-IsProved :
      (method : String) (req : SessionFinishRequest) (now : ℕ) (d d' : Db) (proof : Proof)
      → check_session_finish packages method (some req) now d ≡ ok proof
      → load_challenge proof.workspace_id proof.device_id proof.client_nonce d' ≡ err no_rows
      → IsProved req now d d'
  unfolding check_session_finish
  check_session_finish-IsProved method req now d d' proof h gone =
      let (_, posted) = fail_if-eq-ok (not (str_eq method "POST")) _ _ h in
      let (_, named) = fail_if-eq-ok (str_eq req.workspace_id "") _ _ posted in
      let (_, from) = fail_if-eq-ok (str_eq req.device_id "") _ _ named in
      let (nonce, nonce_read, a) =
        >>=-eq-ok (parse_fixed_base64 packages req.client_nonce session_nonce_size bad_client_nonce)
          _ from in
      let ((expected, name, until), loaded, b) =
        >>=-eq-ok
          (or_refuse (refusal 401 "challenge_not_found" "")
            (load_challenge req.workspace_id req.device_id nonce d))
          _ a in
      let (alive, c) = fail_if-eq-ok (ltb until now) _ _ b in
      let (server_nonce, echoed, e) =
        >>=-eq-ok
          (parse_fixed_base64 packages req.server_nonce session_nonce_size
            (refusal 401 "server_nonce_mismatch" ""))
          _ c in
      let (matched, f) = fail_if-eq-ok (not (str_eq server_nonce expected)) _ _ e in
      let (key, known, g) =
        >>=-eq-ok
          (or_refuse (refusal 401 "workspace_not_found" "") (workspace_pub_key req.workspace_id d))
          _ f in
      let (_, i) = fail_if-eq-ok (not (packages.byte_count key == public_key_size)) _ _ g in
      let (signature, sent, j) =
        >>=-eq-ok
          (parse_fixed_base64 packages req.signature signature_size
            (refusal 400 "bad_signature" "invalid signature"))
          _ i in
      let (verified, k) =
        fail_if-eq-ok
          (not (
            verify_transcript packages key req.workspace_id req.device_id nonce expected signature))
          _ _ j in
      let same = ok-injective k in
      record {
        client_nonce = nonce;
        server_nonce = expected;
        device_name = name;
        until = until;
        key = key;
        signature = signature;
        nonce_read =
            parse_fixed_base64-eq-ok req.client_nonce session_nonce_size bad_client_nonce
              nonce_read;
        saved = or_refuse-eq-ok (refusal 401 "challenge_not_found" "") _ loaded;
        current = ground (arith, alive);
        answered =
            parse_fixed_base64-eq-ok req.server_nonce session_nonce_size _ echoed
            ∙ ap some ((eq_iff server_nonce expected).0 (ground (arith, matched)));
        registered = or_refuse-eq-ok (refusal 401 "workspace_not_found" "") _ known;
        signature_read = parse_fixed_base64-eq-ok req.signature signature_size _ sent;
        signed = ground (arith, verified);
        spent =
            subst
              (λ (q : Proof).
                load_challenge q.workspace_id q.device_id q.client_nonce d' ≡ err no_rows)
              (sym same) gone;
      }

  -- A login that is answered with a session has passed every check: its challenge was saved and has
  -- not expired, it repeats the server's nonce, and its signature of both nonces verifies under the
  -- key that the workspace is registered with; and its challenge is spent.
  pub handle_session_finish-IsProved :
      (method token : String) (req : SessionFinishRequest) (ttl now : ℕ) (d : Db) {d' : Db}
      {resp : SessionFinishResponse}
      → handle_session_finish packages method (some req) token ttl now d ≡ (d', ok resp)
      → IsProved req now d d'
  unfolding handle_session_finish
  handle_session_finish-IsProved method token req ttl now d h =
      elim (Result-cases (check_session_finish packages method (some req) now d)) [
        | inl (r, failed) ↦
            absurd (answer_refused (reply_ok (rw (failed, handle_session_finish) at h)).1)
        | inr (proof, passed) ↦
            let spent =
              finish_session-spent token ttl now proof d
                (rw (passed, handle_session_finish) at h) in
            check_session_finish-IsProved method req now d _ proof passed spent
      ]
