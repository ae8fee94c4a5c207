-- ===== src/ConnectorService/LlmClient.antt =====
-- connector/llm_client.py: the HTTP client of the local LLM server. What the server answers is an
-- argument of the operations that use it.
use Prim.Native.String.{◌++◌ as append}
use remote_llmconnector.Shared.{
  Dict, insert, Value, ℕ, String, Bool, false, ◌||◌, Option, none, some, List, [], ◌∷◌, truthy,
  if◌then◌else◌, eqb, is_lower, strip_slashes,
}

-- `session` is the aiohttp session, with whether it is closed.
pub record LlmClient : Type 0 where
  pub base_url : String
  pub host_header : Option String
  pub session : Option Bool

unfoldable pub init : String → Option String → LlmClient
unfolding strip_slashes
init base_url host_header = record {
  base_url = strip_slashes base_url;
  host_header = host_header;
  session = none;
}

-- `_get_session`
unfoldable pub get_session : LlmClient → LlmClient
get_session c = elim c.session [
  | none ↦ record c { session = some false }
  | some closed ↦ record c { session = some false }
]

unfoldable pub close : LlmClient → LlmClient
close c = elim c.session [
  | none ↦ c
  | some closed ↦ if closed then c else record c { session = none }
]

-- An HTTP request as it goes out.
pub record LlmRequest : Type 0 where
  pub method : String
  pub url : String
  pub headers : Dict String
  pub body : Option (List ℕ)

-- The headers that are not forwarded.
abbrev pub is_withheld : String → Bool
is_withheld k = is_lower k "host" || is_lower k "connection" || is_lower k "authorization"

-- The dict comprehension over the request's headers, which are a dict.
unfoldable pub keep_headers : Dict String → Dict String
unfolding is_lower
keep_headers [] = []
keep_headers ((k, v) ∷ d) =
    let rest = keep_headers d in if is_withheld k then rest else (k, v) ∷ rest

abbrev pub set_host : Option String → Dict String → Dict String
set_host none d = d
set_host (some h) d = if truthy h then insert "Host" h d else d

abbrev pub set_key : Option String → Dict String → Dict String
set_key none d = d
set_key (some key) d = if truthy key then insert "Authorization" (append "Bearer " key) d else d

-- What `forward_request` and `forward_streaming_request` send.
unfoldable pub outgoing_request :
    LlmClient → String → String → Dict String → Option (List ℕ) → Option String → LlmRequest
unfolding keep_headers
outgoing_request c method path headers body llm_api_key = record {
  method = method;
  url = append c.base_url path;
  headers = set_key llm_api_key (set_host c.host_header (keep_headers headers));
  body = body;
}

-- What comes of `forward_request`: the response, a timeout, or another exception.
pub data Reply : Type 0 where
  answered : ℕ → Dict String → List ℕ → Reply
  timed_out : Reply
  failed : Reply

-- How a stream of chunks ends.
pub data StreamEnd : Type 0 where
  finished : StreamEnd
  timeout : StreamEnd
  failure : StreamEnd

-- What `forward_streaming_request` yields: the status and the headers, then what the server's body
-- brings; or a timeout or another exception before.
pub data Stream : Type 0 where
  opened : ℕ → Dict String → List (List ℕ) → StreamEnd → Stream
  late_stream : Stream
  no_stream : Stream

-- `if chunk: yield chunk`
unfoldable pub yielded : List (List ℕ) → List (List ℕ)
yielded [] = []
yielded ([] ∷ chunks) = yielded chunks
yielded ((b ∷ bs) ∷ chunks) = (b ∷ bs) ∷ yielded chunks

-- `check_health`, `get_models` and `get_ollama_tags` by the status of the server's answer, where
-- there is one.
unfoldable pub check_health : Option ℕ → Bool
check_health none = false
check_health (some status) = eqb status 200

abbrev pub json_of : ℕ → Option (List (Dict Value)) → Option (List (Dict Value))
json_of status entries = if eqb status 200 then entries else none

-- The entries of the answer's list; `none` is an exception.
unfoldable pub get_entries : Option (ℕ × Option (List (Dict Value))) → Option (List (Dict Value))
get_entries none = none
get_entries (some (status, entries)) = json_of status entries
