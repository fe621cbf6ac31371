-- ===== src/Api/Login.antt =====
-- internal/server/api/session.go: the two requests of a login, and `VerifyTranscript` of
-- internal/common/crypto/crypto.go, which proves that the client has the workspace's key. Base64,
-- SHA-256, Ed25519 and the random bytes are not the program's: they are arguments, and so is the
-- number of bytes of a byte string, which the database keeps as a text.
use Prim.Native.String.{◌++◌ as append}
use syna.Prelude.{
  ℕ, String, str_eq, ◌==◌, Bool, true, not, ◌&&◌, Option, none, some, ltb, if◌then◌else◌,
}
use syna.Prelude.Result.{Result, ok, err, ◌>>=◌, ◌>>◌, fail_if}
use syna.Server.Schema.{Db}
use syna.Server.Errors.{DbError, no_rows, workspace_limit_reached}
use syna.Server.Workspaces.{workspace_pub_key, ensure_workspace, ensure_workspace_within_limit}
use syna.Server.Sessions.{save_challenge, load_challenge, delete_challenge, create_session}
use syna.Api.Replies.{
  Reply, Refusal, refusal, method_not_allowed, decoded, SessionStartRequest, SessionStartResponse,
  SessionFinishRequest, SessionFinishResponse,
}

-- ed25519.PublicKeySize, ed25519.SignatureSize and sessionNonceSize
abbrev pub public_key_size : ℕ
public_key_size = 32

abbrev pub signature_size : ℕ
signature_size = 64

abbrev pub session_nonce_size : ℕ
session_nonce_size = 32

-- the error of a database call, where the handler answers every error alike
abbrev pub or_refuse : {A : Type 0} → Refusal → Result DbError A → Reply A
or_refuse r (ok a) = ok a
or_refuse r (err e) = err r

abbrev pub bad_client_nonce : Refusal
bad_client_nonce = refusal 400 "bad_client_nonce" "invalid client_nonce"

-- the packages that the login calls
pub record Packages : Type 0 where
  -- base64.RawStdEncoding
  pub parse_base64_raw : String → Option String
  pub base64_raw : String → String
  pub byte_count : String → ℕ
  -- sha256.Sum256
  pub sha256 : String → String
  -- ed25519.Verify: the key, the message, the signature
  pub verify : String → String → String → Bool

-- a login that the checks let through
pub record Proof : Type 0 where
  pub workspace_id : String
  pub device_id : String
  pub device_name : String
  pub client_nonce : String

module _ (packages : Packages) where
  unfoldable pub parse_fixed_base64 : String → ℕ → Refusal → Reply String
  parse_fixed_base64 value size bad = elim (packages.parse_base64_raw value) [
    | none ↦ err bad
    | some raw ↦ if packages.byte_count raw == size then ok raw else err bad
  ]

  unfoldable pub transcript_digest : String → String → String → String → String
  transcript_digest workspace_id device_id client_nonce server_nonce = packages.sha256 (
      append "syna-auth-v1\0" (
        append workspace_id (
          append "\0"
            (append device_id (append "\0" (append client_nonce (append "\0" server_nonce)))))))

  unfoldable pub verify_transcript : String → String → String → String → String → String → Bool
  unfolding transcript_digest
  verify_transcript public_key workspace_id device_id client_nonce server_nonce signature =
      packages.byte_count public_key == public_key_size
      && packages.byte_count signature == signature_size
      && packages.verify public_key
          (transcript_digest workspace_id device_id client_nonce server_nonce) signature

  -- the key of the request, empty where it has none
  unfoldable pub requested_key : String → Reply String
  requested_key key = if str_eq key "" then ok "" else elim (packages.parse_base64_raw key) [
    | none ↦ err (refusal 400 "bad_workspace_pubkey" "invalid workspace_pubkey")
    | some raw ↦
        if packages.byte_count raw == public_key_size
        then ok raw
        else err (refusal 400 "bad_workspace_pubkey" "workspace_pubkey must be 32 bytes")
  ]

  abbrev pub creation_refusal : DbError → Refusal
  creation_refusal workspace_limit_reached =
      refusal 403 "workspace_limit_reached" "workspace limit reached"
  creation_refusal _ = refusal 400 "workspace_create_failed" "workspace create failed"

  abbrev pub created_or_refused : Result DbError (Db × Bool) → Reply (Db × Bool)
  created_or_refused (ok r) = ok r
  created_or_refused (err e) = err (creation_refusal e)

  -- the workspace of a login, created if it is missing and may be
  abbrev pub opened_workspace :
      SessionStartRequest → String → ℕ → ℕ → Db → Result DbError String → Reply (Db × Bool)
  opened_workspace req key limit now d (ok existing) =
      or_refuse (refusal 400 "workspace_key_mismatch" "workspace public key mismatch")
        (ensure_workspace req.workspace_id key now d)
  opened_workspace req key limit now d (err no_rows) = do
    fail_if (not req.create_if_missing) (refusal 404 "workspace_not_found" "")
    fail_if (not (packages.byte_count key == public_key_size)) (
        refusal 400 "bad_workspace_pubkey" "workspace_pubkey is required when creating a workspace")
    created_or_refused (ensure_workspace_within_limit req.workspace_id key limit now d)
  opened_workspace req key limit now d (err _) = err (refusal 500 "db_error" "database error")

  -- the POST of a body, `none` where it is no JSON of the request; `server_nonce` is 32 random bytes
  unfoldable pub handle_session_start :
      String → Option SessionStartRequest → ℕ → String → ℕ → Db → Reply (Db × SessionStartResponse)
  handle_session_start method body max_workspaces server_nonce now d = do
    fail_if (not (str_eq method "POST")) method_not_allowed
    req ← decoded body
    fail_if (str_eq req.workspace_id "") (refusal 400 "bad_workspace_id" "workspace_id is required")
    fail_if (str_eq req.device_id "") (refusal 400 "bad_device_id" "device_id is required")
    client_nonce ← parse_fixed_base64 req.client_nonce session_nonce_size bad_client_nonce
    key ← requested_key req.workspace_pub_key
    (d', created) ←
        opened_workspace req key max_workspaces now d (workspace_pub_key req.workspace_id d)
    ok (
      save_challenge req.workspace_id req.device_id req.device_name client_nonce server_nonce now
          d',
      record {
        workspace_exists = true;
        created = created;
        server_nonce = packages.base64_raw server_nonce;
        server_time = now;
        protocol_version = 1;
      },
    )

  unfoldable pub check_session_finish : String → Option SessionFinishRequest → ℕ → Db → Reply Proof
  check_session_finish method body now d = do
    fail_if (not (str_eq method "POST")) method_not_allowed
    req ← decoded body
    fail_if (str_eq req.workspace_id "") (refusal 400 "bad_workspace_id" "workspace_id is required")
    fail_if (str_eq req.device_id "") (refusal 400 "bad_device_id" "device_id is required")
    client_nonce ← parse_fixed_base64 req.client_nonce session_nonce_size bad_client_nonce
    (expected, device_name, until) ←
        or_refuse (refusal 401 "challenge_not_found" "")
          (load_challenge req.workspace_id req.device_id client_nonce d)
    fail_if (ltb until now) (refusal 401 "challenge_expired" "")
    server_nonce ←
        parse_fixed_base64 req.server_nonce session_nonce_size
          (refusal 401 "server_nonce_mismatch" "")
    fail_if (not (str_eq server_nonce expected)) (refusal 401 "server_nonce_mismatch" "")
    key ← or_refuse (refusal 401 "workspace_not_found" "") (workspace_pub_key req.workspace_id d)
    fail_if (not (packages.byte_count key == public_key_size))
        (refusal 401 "bad_workspace_pubkey" "")
    signature ←
        parse_fixed_base64 req.signature signature_size
          (refusal 400 "bad_signature" "invalid signature")
    fail_if
        (not (verify_transcript key req.workspace_id req.device_id client_nonce expected signature))
        (refusal 401 "bad_signature" "")
    ok (record {
      workspace_id = req.workspace_id;
      device_id = req.device_id;
      device_name = device_name;
      client_nonce = client_nonce;
    })

  -- The challenge is spent before the session is made.
  unfoldable pub finish_session : String → ℕ → ℕ → Proof → Db → Db × Reply SessionFinishResponse
  finish_session token ttl now proof d =
      let spent = delete_challenge proof.workspace_id proof.device_id proof.client_nonce d in
      elim (create_session packages.sha256 token proof.workspace_id proof.device_id
        proof.device_name ttl now spent) [
          | err e ↦ (spent, err (refusal 500 "session_create_failed" "session create failed"))
          | ok (d', session_token, until, seq) ↦ (
            d',
            ok (record {
              session_token = session_token;
              expires_at = until;
              workspace_id = proof.workspace_id;
              current_seq = seq;
            }),
          )
        ]

  unfoldable pub handle_session_finish :
      String → Option SessionFinishRequest → String → ℕ → ℕ → Db → Db × Reply SessionFinishResponse
  handle_session_finish method body token ttl now d =
      elim (check_session_finish method body now d) [
        | err r ↦ (d, err r)
        | ok proof ↦ finish_session token ttl now proof d
      ]
