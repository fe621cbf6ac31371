-- ===== src/Server/Access.antt =====
-- Challenges and sessions (internal/server/db/sessions.go): what is saved is found, for as long as
-- it is meant to be.
use syna.Prelude.{
  ℕ, ◌+◌, ◌≤◌, ◌<◌, String, str_eq, eq_iff, ◌≡◌, refl, ap, sym, true, false, ◌&&◌, arith, ltb,
}
use syna.Prelude.Result.{ok, err, >>=-eq-ok, ok-injective}
use syna.Table.{find, update, insert_or_replace, find-delete_self}
use syna.Server.Schema.{Db}
use syna.Server.Errors.{no_rows, session_expired}
use syna.Server.Workspaces.{current_seq}
use syna.Server.Sessions.{
  is_challenge, is_session, save_challenge, load_challenge, delete_challenge, create_session,
  authenticate, challenge_lifetime, session_of,
}

own_challenge :
    (w device client : String) → (str_eq w w && str_eq device device && str_eq client client) ≡ true
own_challenge w device client =
    ground
      (arith, (eq_iff w w).1 refl, (eq_iff device device).1 refl, (eq_iff client client).1 refl)

-- A challenge that was saved is loaded as it was saved, with an expiry one lifetime later; once it
-- is deleted, as the end of a login does, it is not found again.
pub challenge_once :
    (w device name client server : String) (now : ℕ) (d : Db)
    → (load_challenge w device client (save_challenge w device name client server now d)
        ≡ ok (server, name, now + challenge_lifetime))
      × (load_challenge w device client
            (delete_challenge w device client (save_challenge w device name client server now d))
          ≡ err no_rows)
unfolding load_challenge save_challenge delete_challenge insert_or_replace find
challenge_once w device name client server now d = (
  rw (own_challenge w device client) refl,
  rw (find-delete_self (is_challenge w device client) (is_challenge w device client) (λ r h. h) _)
      refl,
)

module _ (sha256 : String → String) where
  created_session :
      (token w device name : String) (ttl now : ℕ) (d : Db) {d' : Db} {t : String} {until seq : ℕ}
      → create_session sha256 token w device name ttl now d ≡ ok (d', t, until, seq)
      → session_of (find (is_session (sha256 token)) d'.sessions)
        ≡ ok (record { workspace_id = w; device_id = device; expires_at = now + ttl })
  unfolding create_session insert_or_replace find
  created_session token w device name ttl now d {d'} h =
      let (seq, _, e) = >>=-eq-ok (current_seq w d) _ h in
      let same = ap (λ (p : Db × String × ℕ × ℕ). p.0) (ok-injective e) in
      rw (sym same) (rw ((eq_iff (sha256 token) (sha256 token)).1 refl) refl)

  -- A token that a call of `create_session` returned authenticates its device in its workspace up
  -- to the end of the session's time to live.
  pub authenticate-create_session :
      (token w device name : String) (ttl now later : ℕ) (d : Db) {d' : Db} {t : String}
      {until seq : ℕ}
      → create_session sha256 token w device name ttl now d ≡ ok (d', t, until, seq)
      → later ≤ now + ttl
      → (e : Db) × (authenticate sha256 token later d'
          ≡ ok (e, record { workspace_id = w; device_id = device; expires_at = now + ttl }))
  unfolding authenticate
  authenticate-create_session token w device name ttl now later d {d'} h still =
      let live : ltb (now + ttl) later ≡ false = ground (arith, still) in
      (
        record d' {
          sessions =
              update (is_session (sha256 token)) (λ r. record r { last_used_at = later })
                d'.sessions;
        },
        rw (created_session token w device name ttl now d h, live) refl,
      )

  -- After the end of the session's time to live the token is refused as expired.
  pub authenticate-expired :
      (token w device name : String) (ttl now later : ℕ) (d : Db) {d' : Db} {t : String}
      {until seq : ℕ}
      → create_session sha256 token w device name ttl now d ≡ ok (d', t, until, seq)
      → now + ttl < later
      → authenticate sha256 token later d' ≡ err session_expired
  unfolding authenticate
  authenticate-expired token w device name ttl now later d h late =
      let over : ltb (now + ttl) later ≡ true = ground (arith, late) in
      rw (created_session token w device name ttl now d h, over) refl
