-- ===== src/Tests/Api.antt =====
-- The properties of the requests and of the hub at a concrete login and a concrete message.
use syna.Prelude.{
  ◌≢◌, eq_iff, true, false, length, ◌⊎◌, ℕ, String, str_eq, ◌≡◌, refl, ◌≤◌, arith, some, none,
  Option, ℤ, pos, ◌<◌, inr, List, [], ◌∷◌, map, if◌then◌else◌,
}
use syna.Prelude.Result.{err, ok}
use syna.Table.{select}
use syna.Server.Schema.{Db}
use syna.Server.Workspaces.{workspace_pub_key}
use syna.Server.Sessions.{
  save_challenge, load_challenge, delete_challenge, prune_expired_challenges,
}
use syna.Api.{
  challenge_not_found, handle_session_finish-replayed, Packages, SessionFinishRequest,
  handle_session_finish, check_session_finish, finish_session, parse_fixed_base64,
  verify_transcript, IsProved, handle_session_finish-IsProved, handle_bootstrap, min_loop,
  handle_bootstrap-resumes, parse_event_fetch_query, parse_event_fetch_query-bounds,
}
use syna.Hub.{
  members_of-publish_apart, subscribe, unsubscribe, new_hub, IsNew, HubReach, starts, subscribes,
  unsubscribes, members_of-subscribe, Hub, WsMessage, members_of, publish, members_of-publish,
  has_room, received,
}
use syna.Server.Events.{fetch_events}
use syna.Protocol.{EventRecord}
use syna.Tests.Data.{founded, runs, laptop, pruned}

-- packages that encode nothing, with one signature
abbrev plain : Packages
plain = record {
  parse_base64_raw = λ s. some s;
  base64_raw = λ s. s;
  byte_count = λ s. if str_eq s "signature" then 64 else 32;
  sha256 = λ s. s;
  verify = λ key message signature. str_eq signature "signature";
}

abbrev challenged : Db
unfolding runs save_challenge prune_expired_challenges
challenged = save_challenge "w" "laptop" "Laptop" "client" "server" 5 founded

abbrev finish : SessionFinishRequest
finish = record {
  workspace_id = "w";
  device_id = "laptop";
  client_nonce = "client";
  server_nonce = "server";
  signature = "signature";
}

handle_session_finish-IsProved_example :
    IsProved plain finish 9 challenged
      (handle_session_finish plain "POST" (some finish) "token" 100 9 challenged).0
unfolding runs handle_session_finish check_session_finish finish_session parse_fixed_base64
    verify_transcript load_challenge delete_challenge workspace_pub_key save_challenge
    prune_expired_challenges
handle_session_finish-IsProved_example =
    handle_session_finish-IsProved plain "POST" "token" finish 100 9 challenged refl

abbrev ping : WsMessage
ping = record { type = "event"; event = none; server_time = none }

-- one subscriber with room, and one whose buffer is full
abbrev listening : Hub
listening = record {
  max_per_ws = 4;
  next_id = 2;
  groups =
      record {
        workspace_id = "w";
        members =
            record { id = 1; buffer = [] }
            ∷ record {
              id = 0;
              buffer =
                  ping ∷ ping ∷ ping ∷ ping ∷ ping ∷ ping ∷ ping ∷ ping ∷ ping ∷ ping ∷ ping ∷ ping
                  ∷ ping ∷ ping ∷ ping ∷ ping ∷ ping ∷ ping ∷ ping ∷ ping ∷ ping ∷ ping ∷ ping
                  ∷ ping ∷ ping ∷ ping ∷ ping ∷ ping ∷ ping ∷ ping ∷ ping ∷ ping ∷ [];
            }
            ∷ [];
      }
      ∷ [];
  closed = [];
}

abbrev subscribed : Hub → Hub
unfolding subscribe
subscribed h = elim (subscribe "w" h) [ none ↦ h | some p ↦ p.0 ]

members_of-publish_example :
    members_of "w" (publish "w" ping listening).groups
    ≡ map (received ping) (select has_room (members_of "w" listening.groups))
unfolding runs members_of
members_of-publish_example = members_of-publish "w" ping listening (refl, (refl, tt))

handle_bootstrap-resumes_example :
    (page : List EventRecord × ℕ) × (fetch_events "w" 2 10 pruned ≡ ok page)
unfolding runs handle_bootstrap min_loop
handle_bootstrap-resumes_example =
    handle_bootstrap-resumes laptop 6 10 pruned (inr (omega arith), tt) refl refl

abbrev parse_thousand : String → Option ℤ
parse_thousand raw = some (pos 1000)

parse_event_fetch_query-bounds_example : (0 < 200) × (200 ≤ 200)
unfolding parse_event_fetch_query
parse_event_fetch_query-bounds_example =
    parse_event_fetch_query-bounds parse_thousand 200 "" "1000" refl (omega arith)

-- a hub after two subscriptions, of which the first has ended
abbrev first_hub : Hub
first_hub = subscribed (new_hub 4)

abbrev second_hub : Hub
second_hub = unsubscribe "w" 0 (subscribed first_hub)

second_hub-HubReach : HubReach second_hub
unfolding subscribe syna.Table.find syna.Table.any
second_hub-HubReach = unsubscribes "w" 0 (subscribed first_hub) (
    subscribes "w" first_hub (subscribed first_hub, 1)
      (subscribes "w" (new_hub 4) (first_hub, 0) (starts 4) refl) refl)

members_of-subscribe_example :
    (members_of "w" (subscribed second_hub).groups
      ≡ record { id = 2; buffer = [] } ∷ members_of "w" second_hub.groups)
    × IsNew 2 second_hub.groups
    × ((members_of "w" second_hub.groups ≡ []) ⊎ (length (members_of "w" second_hub.groups) < 4))
unfolding subscribe unsubscribe members_of syna.Table.find syna.Table.any syna.Table.update
    syna.Table.delete
members_of-subscribe_example = members_of-subscribe "w" second_hub second_hub-HubReach refl

w_apart_v : ◌≢◌ {A = String} "w" "v"
w_apart_v e = let apart : false ≡ true = (eq_iff "w" "v").1 e in cc

members_of-publish_apart_example :
    members_of "v" (publish "w" ping listening).groups ≡ members_of "v" listening.groups
members_of-publish_apart_example = members_of-publish_apart "w" "v" w_apart_v ping listening

abbrev finished : Db
unfolding runs handle_session_finish check_session_finish finish_session parse_fixed_base64
    verify_transcript load_challenge delete_challenge workspace_pub_key save_challenge
    prune_expired_challenges
finished = (handle_session_finish plain "POST" (some finish) "token" 100 9 challenged).0

handle_session_finish-replayed_example :
    handle_session_finish plain "POST" (some finish) "other token" 100 10 finished
    ≡ (finished, err challenge_not_found)
unfolding runs handle_session_finish check_session_finish finish_session parse_fixed_base64
    verify_transcript load_challenge delete_challenge workspace_pub_key save_challenge
    prune_expired_challenges
handle_session_finish-replayed_example =
    handle_session_finish-replayed plain "POST" finish "token" "other token" 100 9 10 challenged
      refl
