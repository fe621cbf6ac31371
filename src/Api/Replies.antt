-- ===== src/Api/Replies.antt =====
-- internal/server/api/response.go and the answers of internal/common/protocol/types.go: a status
-- with a body, or with an `ErrorResponse`.
use syna.Prelude.{ℕ, String, Bool, Option, none, some, List}
use syna.Prelude.Result.{Result, ok, err}
use syna.Protocol.{EventRecord}

pub record ErrorResponse : Type 0 where
  pub code : String
  pub message : String
  pub current_seq : ℕ
  pub retained_floor_seq : ℕ

pub record Refusal : Type 0 where
  pub status : ℕ
  pub body : ErrorResponse

-- what a handler writes: an answer with status 200, or a refusal
abbrev pub Reply : Type 0 → Type 0
Reply A = Result Refusal A

-- writeError
abbrev pub refusal : ℕ → String → String → Refusal
refusal status code message = record {
  status = status;
  body = record { code = code; message = message; current_seq = 0; retained_floor_seq = 0 };
}

-- the refusal with a sequence that tells the client where its view is out of date
abbrev pub conflict : String → ℕ → Refusal
conflict code seq = record {
  status = 409;
  body = record { code = code; message = ""; current_seq = seq; retained_floor_seq = 0 };
}

abbrev pub method_not_allowed : Refusal
method_not_allowed = refusal 405 "method_not_allowed" ""

abbrev pub bad_json : Refusal
bad_json = refusal 400 "bad_json" "invalid JSON body"

-- decodeJSON, `none` where it fails
abbrev pub decoded : {A : Type 0} → Option A → Reply A
decoded none = err bad_json
decoded (some a) = ok a

pub record SessionStartRequest : Type 0 where
  pub workspace_id : String
  pub device_id : String
  pub device_name : String
  pub client_nonce : String
  pub create_if_missing : Bool
  pub workspace_pub_key : String

pub record SessionStartResponse : Type 0 where
  pub workspace_exists : Bool
  pub created : Bool
  pub server_nonce : String
  pub server_time : ℕ
  pub protocol_version : ℕ

pub record SessionFinishRequest : Type 0 where
  pub workspace_id : String
  pub device_id : String
  pub client_nonce : String
  pub server_nonce : String
  pub signature : String

pub record SessionFinishResponse : Type 0 where
  pub session_token : String
  pub expires_at : ℕ
  pub workspace_id : String
  pub current_seq : ℕ

pub record EventSubmitResponse : Type 0 where
  pub accepted_seq : ℕ
  pub workspace_seq : ℕ

pub record EventFetchResponse : Type 0 where
  pub events : List EventRecord
  pub current_seq : ℕ
