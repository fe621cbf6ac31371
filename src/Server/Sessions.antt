-- ===== src/Server/Sessions.antt =====
-- internal/server/db/sessions.go: challenges, sessions and devices. The random bytes of a token
-- and SHA-256 are not the program's: the token and the hash function are arguments.
use syna.Prelude.{ℕ, ◌+◌, String, str_eq, Bool, ◌&&◌, Option, none, some, leb, ltb, if◌then◌else◌}
use syna.Prelude.Result.{Result, ok, err, ◌>>=◌}
use syna.Table.{find, update, upsert, delete, insert_or_replace}
use syna.Server.Schema.{Db, ChallengeRow, SessionRow, Session}
use syna.Server.Errors.{DbError, no_rows, session_expired}
use syna.Server.Events.{is_device}
use syna.Server.Workspaces.{current_seq}

abbrev pub is_challenge : String → String → String → ChallengeRow → Bool
is_challenge workspace_id device_id client_nonce r =
    str_eq r.workspace_id workspace_id
    && str_eq r.device_id device_id
    && str_eq r.client_nonce client_nonce

-- 60 * time.Second
abbrev pub challenge_lifetime : ℕ
challenge_lifetime = 60_000_000_000

unfoldable pub prune_expired_challenges : ℕ → Db → Db
prune_expired_challenges now d = record d {
  session_challenges = delete (λ r. leb r.expires_at now) d.session_challenges;
}

unfoldable pub save_challenge : String → String → String → String → String → ℕ → Db → Db
unfolding prune_expired_challenges
save_challenge workspace_id device_id device_name client_nonce server_nonce now d =
    let d' = prune_expired_challenges now d in
    record d' {
      session_challenges =
          insert_or_replace (is_challenge workspace_id device_id client_nonce)
            (record {
              workspace_id = workspace_id;
              device_id = device_id;
              client_nonce = client_nonce;
              server_nonce = server_nonce;
              device_name = device_name;
              expires_at = now + challenge_lifetime;
              created_at = now;
            })
            d'.session_challenges;
    }

abbrev pub challenge_of : Option ChallengeRow → Result DbError (String × String × ℕ)
challenge_of none = err no_rows
challenge_of (some r) = ok (r.server_nonce, r.device_name, r.expires_at)

unfoldable pub load_challenge : String → String → String → Db → Result DbError (String × String × ℕ)
load_challenge workspace_id device_id client_nonce d =
    challenge_of (find (is_challenge workspace_id device_id client_nonce) d.session_challenges)

unfoldable pub delete_challenge : String → String → String → Db → Db
delete_challenge workspace_id device_id client_nonce d = record d {
  session_challenges =
      delete (is_challenge workspace_id device_id client_nonce) d.session_challenges;
}

abbrev pub is_session : String → SessionRow → Bool
is_session token_hash r = str_eq r.token_hash token_hash

abbrev pub session_of : Option SessionRow → Result DbError Session
session_of none = err no_rows
session_of (some r) =
    ok
      (record { workspace_id = r.workspace_id; device_id = r.device_id; expires_at = r.expires_at })

abbrev pub unexpired : ℕ → Session → Result DbError Session
unexpired now s = if ltb s.expires_at now then err session_expired else ok s

module _ (sha256 : String → String) where
  unfoldable pub create_session :
      String → String → String → String → ℕ → ℕ → Db → Result DbError (Db × String × ℕ × ℕ)
  create_session token workspace_id device_id device_name ttl now d = do
    seq ← current_seq workspace_id d
    ok (
      record d {
        sessions =
            insert_or_replace (is_session (sha256 token))
              (record {
                token_hash = sha256 token;
                workspace_id = workspace_id;
                device_id = device_id;
                issued_at = now;
                expires_at = now + ttl;
                last_used_at = now;
              })
              d.sessions;
        devices =
            upsert (is_device workspace_id device_id)
              (λ r. record r { display_name = device_name; last_seen_at = now })
              (record {
                workspace_id = workspace_id;
                device_id = device_id;
                display_name = device_name;
                first_seen_at = now;
                last_seen_at = now;
              })
              d.devices;
      },
      token,
      now + ttl,
      seq,
    )

  unfoldable pub authenticate : String → ℕ → Db → Result DbError (Db × Session)
  authenticate token now d = do
    row ← session_of (find (is_session (sha256 token)) d.sessions)
    sess ← unexpired now row
    ok (
      record d {
        sessions =
            update (is_session (sha256 token)) (λ r. record r { last_used_at = now }) d.sessions;
      },
      sess,
    )
