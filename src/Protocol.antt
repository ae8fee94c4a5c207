-- ===== src/Protocol.antt =====
-- shared/protocol.py: the messages between broker and connector, the payloads' fields and defaults,
-- and the functions that create messages. `model_dump` gives a dict of the fields in order of
-- declaration; `model_validate` reads one, ignores unknown keys, fills in the defaults and refuses a
-- missing field or one of another type.
pub mod Roundtrip
use remote_llmconnector.Shared.{
  Dict, lookup, Value, null, str, flag, number, strs, table, as_text, as_optional_text, as_texts,
  as_text_or, as_table, optional_text, required_text, ◌>>=◌, ℕ, String, Bool, true, false, Option,
  none, some, List, [], ◌∷◌, truthy, if◌then◌else◌,
}

pub data MessageType : Type 0 where
  auth response stream_chunk stream_end error ping : MessageType
  auth_ok auth_fail request pong cancel pending approved revoked : MessageType

pub record RelayMessage : Type 0 where
  pub type : MessageType
  pub id : String
  pub payload : Dict Value

pub record AuthPayload : Type 0 where
  pub token : Option String
  pub name : Option String
  pub connector_version : String
  pub models : List String

pub record PendingPayload : Type 0 where
  pub connector_id : String
  pub message : String

pub record RequestPayload : Type 0 where
  pub method : String
  pub path : String
  pub headers : Dict String
  pub body : String
  pub llm_api_key : Option String

-- `x or d` for a text that may be None.
abbrev pub text_or : Option String → String → String
text_or none d = d
text_or (some s) d = if truthy s then s else d

abbrev pub list_or_nil {ℓ} : {A : Type ℓ} → Option (List A) → List A
list_or_nil none = []
list_or_nil (some l) = l

unfoldable pub create_auth_message :
    String → Option String → Option (List String) → Option String → RelayMessage
create_auth_message correlation_id token models name = record {
  type = auth;
  id = correlation_id;
  payload =
      ("token", optional_text token)
      ∷ ("name", optional_text name)
      ∷ ("connector_version", str "1.0.0")
      ∷ ("models", strs (list_or_nil models))
      ∷ [];
}

unfoldable pub create_auth_ok_message : String → String → RelayMessage
create_auth_ok_message correlation_id session_id = record {
  type = auth_ok;
  id = correlation_id;
  payload = ("session_id", str session_id) ∷ [];
}

unfoldable pub create_auth_fail_message : String → String → RelayMessage
create_auth_fail_message correlation_id e = record {
  type = auth_fail;
  id = correlation_id;
  payload = ("error", str e) ∷ [];
}

unfoldable pub create_request_message :
    String → String → String → Dict String → String → Option String → RelayMessage
create_request_message correlation_id method path headers body llm_api_key = record {
  type = request;
  id = correlation_id;
  payload =
      ("method", str method)
      ∷ ("path", str path)
      ∷ ("headers", table headers)
      ∷ ("body", str body)
      ∷ ("llm_api_key", optional_text llm_api_key)
      ∷ [];
}

unfoldable pub create_response_message : String → ℕ → Dict String → String → RelayMessage
create_response_message correlation_id status headers body = record {
  type = response;
  id = correlation_id;
  payload = ("status", number status) ∷ ("headers", table headers) ∷ ("body", str body) ∷ [];
}

unfoldable pub create_stream_chunk_message : String → String → Bool → RelayMessage
create_stream_chunk_message correlation_id chunk done = record {
  type = stream_chunk;
  id = correlation_id;
  payload = ("chunk", str chunk) ∷ ("done", flag done) ∷ [];
}

unfoldable pub create_stream_end_message : String → RelayMessage
create_stream_end_message correlation_id = record {
  type = stream_end;
  id = correlation_id;
  payload = ("done", flag true) ∷ [];
}

unfoldable pub create_error_message : String → ℕ → String → String → RelayMessage
create_error_message correlation_id status e code = record {
  type = error;
  id = correlation_id;
  payload = ("status", number status) ∷ ("error", str e) ∷ ("code", str code) ∷ [];
}

unfoldable pub create_ping_message : String → RelayMessage
create_ping_message correlation_id = record { type = ping; id = correlation_id; payload = [] }

unfoldable pub create_pong_message : String → RelayMessage
create_pong_message correlation_id = record { type = pong; id = correlation_id; payload = [] }

unfoldable pub create_cancel_message : String → RelayMessage
create_cancel_message correlation_id = record { type = cancel; id = correlation_id; payload = [] }

unfoldable pub create_pending_message : String → String → Option String → RelayMessage
create_pending_message correlation_id connector_id message = record {
  type = pending;
  id = correlation_id;
  payload =
      ("connector_id", str connector_id)
      ∷ ("message", str (text_or message "Waiting for admin approval"))
      ∷ [];
}

unfoldable pub create_approved_message : String → String → RelayMessage
create_approved_message correlation_id api_key = record {
  type = approved;
  id = correlation_id;
  payload = ("api_key", str api_key) ∷ [];
}

unfoldable pub create_revoked_message : String → Option String → RelayMessage
create_revoked_message correlation_id reason = record {
  type = revoked;
  id = correlation_id;
  payload = ("reason", str (text_or reason "API key revoked by admin")) ∷ [];
}

-- `AuthPayload.model_validate`
unfoldable pub validate_auth : Dict Value → Option AuthPayload
validate_auth p = do
  token ← as_optional_text (lookup "token" p)
  name ← as_optional_text (lookup "name" p)
  version ← as_text_or (lookup "connector_version" p) "1.0.0"
  models ← as_texts (lookup "models" p) []
  some (record { token = token; name = name; connector_version = version; models = models })

-- `PendingPayload.model_validate`
unfoldable pub validate_pending : Dict Value → Option PendingPayload
validate_pending p = do
  connector_id ← required_text "connector_id" p
  message ← as_text_or (lookup "message" p) "Waiting for admin approval"
  some (record { connector_id = connector_id; message = message })

-- `ApprovedPayload.model_validate`: the key
unfoldable pub validate_approved : Dict Value → Option String
validate_approved p = required_text "api_key" p

-- `RevokedPayload.model_validate`: the reason
unfoldable pub validate_revoked : Dict Value → Option String
validate_revoked p = as_text_or (lookup "reason" p) "API key revoked by admin"

-- `RequestPayload.model_validate`
unfoldable pub validate_request : Dict Value → Option RequestPayload
validate_request p = do
  method ← required_text "method" p
  path ← required_text "path" p
  headers ← as_table (lookup "headers" p)
  body ← as_text_or (lookup "body" p) ""
  llm_api_key ← as_optional_text (lookup "llm_api_key" p)
  some (record {
    method = method;
    path = path;
    headers = headers;
    body = body;
    llm_api_key = llm_api_key;
  })
