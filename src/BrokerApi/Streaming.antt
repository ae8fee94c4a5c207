-- ===== src/BrokerApi/Streaming.antt =====
-- broker/api.py, the loop of `_handle_streaming_response`, and `_handle_models`.
use remote_llmconnector.Shared.{
  lookup, Value, str, ℕ, String, Option, none, some, List, [], ◌∷◌, map, truthy, if◌then◌else◌,
}
use remote_llmconnector.Protocol.{MessageType, RelayMessage}
use remote_llmconnector.Router.{ModelRouter, available_models}
use remote_llmconnector.BrokerApi.Responses.{
  HttpResponse, ModelEntry, model_list, create_error_response,
}
use remote_llmconnector.BrokerApi.UserKeys.{validate_user_api_key}

-- What the loop writes: a chunk as it came, or an event with the connector's error.
pub data Written : Type 0 where
  chunk : String → Written
  error_event : RelayMessage → Written

-- How the loop ends: by the end of the stream, an error event, the timeout, or an exception (a chunk
-- that is no text).
pub data End : Type 0 where
  complete failed timed_out broken : End

abbrev pub also : Written → List Written × End → List Written × End
also w (ws, end) = (w ∷ ws, end)

-- One message: what is written, and whether and how the loop ends.
pub data Round : Type 0 where
  go : Option Written → Round
  end : Option Written → End → Round

abbrev pub chunk_round : Option Value → Round
chunk_round none = go none
chunk_round (some (str s)) = if truthy s then go (some (chunk s)) else go none
chunk_round (some Value.null) = go none
chunk_round (some _) = end none broken

unfoldable pub read_message : MessageType → RelayMessage → Round
unfolding lookup
read_message MessageType.error m = end (some (error_event m)) failed
read_message MessageType.stream_chunk m = chunk_round (lookup "chunk" m.payload)
read_message MessageType.stream_end m = end none complete
read_message _ m = go none

abbrev pub write_round : Round → List Written × End → List Written × End
write_round (go none) rest = rest
write_round (go (some w)) rest = also w rest
write_round (end none e) rest = ([], e)
write_round (end (some w) e) rest = (w ∷ [], e)

-- The loop over what the queue gives; a queue that gives no more is a timeout.
unfoldable pub consume : List (Option RelayMessage) → List Written × End
unfolding read_message
consume [] = ([], timed_out)
consume (none ∷ q) = ([], complete)
consume (some m ∷ q) = let rest = consume q in write_round (read_message m.type m) rest

abbrev pub model_entry : ℕ → String → ModelEntry
model_entry now model = record { id = model; created = now; owned_by = "remotellm" }

-- `_handle_models`
unfoldable pub handle_models : List String → ℕ → Option String → ModelRouter → HttpResponse
unfolding validate_user_api_key available_models create_error_response
handle_models user_api_keys now authorization r =
    elim (validate_user_api_key user_api_keys authorization) [
      | some message ↦
          create_error_response 401 message "authentication_error" (some "invalid_api_key")
      | none ↦ record {
        status = 200;
        content_type = "application/json";
        headers = [];
        body = model_list (map (model_entry now) (available_models r));
      }
    ]
