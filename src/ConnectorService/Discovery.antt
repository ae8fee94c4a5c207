-- ===== src/ConnectorService/Discovery.antt =====
-- connector/main.py, the discovery of the LLM server's models and what `run` makes of it. What the
-- server answers to the two requests is an argument. A name that is no text counts as an entry that
-- raises.
use remote_llmconnector.Shared.{
  Dict, lookup, Value, required_text, ◌>>=◌, ℕ, String, Option, none, some, List, [], ◌∷◌, map,
}
use remote_llmconnector.ConnectorService.LlmClient.{LlmClient, get_entries}
use remote_llmconnector.ConnectorService.Names.{normalize_model_name}
use remote_llmconnector.ConnectorService.Requests.{Service}

-- The list comprehension over the entries, `[m[key] for m in entries]`.
unfoldable pub names_of : String → List (Dict Value) → Option (List String)
unfolding lookup
names_of key [] = some []
names_of key (m ∷ ms) = do name ← required_text key m; names ← names_of key ms; some (name ∷ names)

abbrev pub or_nil : Option (List String) → List String
or_nil none = []
or_nil (some names) = names

abbrev pub entry_names : String → Option (List (Dict Value)) → Option (List String)
entry_names key none = none
entry_names key (some entries) = names_of key entries

-- The answer of the server: its status and the list of its document; `none` where there is none.
abbrev pub Listing : Type 0
Listing = Option (ℕ × Option (List (Dict Value)))

unfoldable pub discover_models_openai : Listing → List String
unfolding get_entries names_of normalize_model_name
discover_models_openai listing = or_nil (do
  raw_models ← entry_names "id" (get_entries listing)
  some (map normalize_model_name raw_models))

unfoldable pub discover_models_ollama : Listing → List String
unfolding get_entries names_of
discover_models_ollama listing = or_nil (entry_names "name" (get_entries listing))

abbrev pub first_found : List String → List String → List String
first_found [] others = others
first_found (m ∷ ms) others = m ∷ ms

-- `_discover_models`
unfoldable pub discover_models : Listing → Listing → List String
unfolding discover_models_openai discover_models_ollama
discover_models tags models =
    first_found (discover_models_ollama tags) (discover_models_openai models)

-- The models that `run` registers: the configured ones, or else those of the server.
unfoldable pub models_to_serve : List String → Listing → Listing → List String
unfolding discover_models
models_to_serve configured tags models = first_found configured (discover_models tags models)

-- `Connector.__init__`
unfoldable pub init : LlmClient → Option String → Service
init llm_client llm_api_key = record {
  llm_client = llm_client;
  llm_api_key = llm_api_key;
  in_flight_requests = [];
  messages = [];
  tries = 0;
}
