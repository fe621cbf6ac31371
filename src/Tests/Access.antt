-- ===== src/Tests/Access.antt =====
-- The properties of challenges and sessions at a concrete login.
use syna.Prelude.{◌≡◌, refl, arith}
use syna.Prelude.Result.{ok, err}
use syna.Server.Schema.{Db, empty}
use syna.Server.Errors.{no_rows, session_expired}
use syna.Server.Sessions.{
  create_session, authenticate, save_challenge, load_challenge, delete_challenge,
}
use syna.Server.Access.{challenge_once, authenticate-create_session, authenticate-expired}
use syna.Tests.Data.{sha256, founded, runs}

challenge_once_example :
    (load_challenge "w" "laptop" "c" (save_challenge "w" "laptop" "Laptop" "c" "s" 5 founded)
      ≡ ok ("s", "Laptop", 60_000_000_005))
    × (load_challenge "w" "laptop" "c" (
          delete_challenge "w" "laptop" "c"
            (save_challenge "w" "laptop" "Laptop" "c" "s" 5 founded))
        ≡ err no_rows)
challenge_once_example = challenge_once "w" "laptop" "Laptop" "c" "s" 5 founded

abbrev logged_in : Db
unfolding runs
logged_in = elim (create_session sha256 "token" "w" "laptop" "Laptop" 100 5 founded) [
  | ok p ↦ p.0
  | err e ↦ empty
]

authenticate-create_session_example :
    (e : Db) × (authenticate sha256 "token" 105 logged_in
      ≡ ok (e, record { workspace_id = "w"; device_id = "laptop"; expires_at = 105 }))
unfolding runs
authenticate-create_session_example =
    authenticate-create_session sha256 "token" "w" "laptop" "Laptop" 100 5 105 founded refl
      (omega arith)

authenticate-expired_example : authenticate sha256 "token" 106 logged_in ≡ err session_expired
unfolding runs
authenticate-expired_example =
    authenticate-expired sha256 "token" "w" "laptop" "Laptop" 100 5 106 founded refl (omega arith)
