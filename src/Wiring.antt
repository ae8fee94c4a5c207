-- ===== src/Wiring.antt =====
-- The settings and the start of the broker: broker/config.py, broker/main.py, and the file of
-- connector keys that broker/__main__.py loads.
use remote_llmconnector.Shared.{
  Dict, lookup, insert, Value, required_text, as_optional_text, ◌>>=◌, String, Bool, false, ◌&&◌,
  ◌||◌, Option, none, some, List, [], ◌∷◌, truthy, contains, ◌++◌, if◌then◌else◌,
}
use remote_llmconnector.Router
use remote_llmconnector.Router.{ModelRouter, on_connector_registered}
use remote_llmconnector.UserStore.Store.{UserStore}
use remote_llmconnector.PrepromptStore.{PrepromptStore}
use remote_llmconnector.ConnectorStore.Store.{ConnectorStore}
use remote_llmconnector.RelayServer.State
use remote_llmconnector.RelayServer.State.{RelayServer}
use remote_llmconnector.Portal.RequestLogger
use remote_llmconnector.Portal.RequestLogger.{RequestLogger}
use remote_llmconnector.Portal.State.{Portal}

pub record ConnectorConfigEntry : Type 0 where
  pub token : String
  pub llm_api_key : Option String

-- The settings that decide how the broker is put together.
pub record BrokerConfig : Type 0 where
  pub connector_tokens : List String
  pub user_api_keys : List String
  pub connector_configs : List ConnectorConfigEntry
  pub gitlab_url : Option String
  pub gitlab_client_id : Option String
  pub gitlab_client_secret : Option String
  pub gitlab_redirect_uri : Option String
  pub public_url : Option String
  pub session_secret : Option String
  pub test_mode : Bool

abbrev pub is_set : Option String → Bool
is_set none = false
is_set (some s) = truthy s

unfoldable pub oauth_enabled : BrokerConfig → Bool
oauth_enabled c =
    is_set c.gitlab_url
    && is_set c.gitlab_client_id
    && is_set c.gitlab_client_secret
    && is_set c.gitlab_redirect_uri
    && is_set c.session_secret

unfoldable pub portal_enabled : BrokerConfig → Bool
unfolding oauth_enabled
portal_enabled c = oauth_enabled c || c.test_mode

-- The loop of `load_connector_configs` over the entries; `none` is an exception.
unfoldable pub load_entries : List (Dict Value) → Option (List ConnectorConfigEntry)
unfolding lookup
load_entries [] = some []
load_entries (entry ∷ entries) = do
  token ← required_text "token" entry
  llm_api_key ← as_optional_text (lookup "llm_api_key" entry)
  rest ← load_entries entries
  some (record { token = token; llm_api_key = llm_api_key } ∷ rest)

-- The file: absent, empty, or a document with a list `connectors`, which may be missing.
pub data ConfigFile : Type 0 where
  absent : ConfigFile
  empty_file : ConfigFile
  document : Option (List (Dict Value)) → ConfigFile

unfoldable pub load_connector_configs : ConfigFile → Option (List ConnectorConfigEntry)
unfolding load_entries
load_connector_configs absent = some []
load_connector_configs empty_file = none
load_connector_configs (document none) = some []
load_connector_configs (document (some entries)) = load_entries entries

-- The tokens of the command line, and those of the file that are not among them.
unfoldable pub merge_tokens : List String → List ConnectorConfigEntry → List String
merge_tokens tokens [] = tokens
merge_tokens tokens (c ∷ cs) =
    merge_tokens (if contains c.token tokens then tokens else tokens ++ (c.token ∷ [])) cs

abbrev pub default_to : String → Option String → Option String
default_to d none = some d
default_to d (some s) = some s

-- `main` of broker/__main__.py from its options on: the file's entries join the tokens, and the test
-- mode has defaults. `local_url` is the URL of the broker's own port.
unfoldable pub main_config : String → List ConnectorConfigEntry → BrokerConfig → BrokerConfig
unfolding merge_tokens
main_config local_url entries options = record options {
  connector_tokens = merge_tokens options.connector_tokens entries;
  connector_configs = entries;
  session_secret =
      if options.test_mode
      then default_to "test-session-secret-for-development-only" options.session_secret
      else options.session_secret;
  public_url =
      if options.test_mode then default_to local_url options.public_url else options.public_url;
}

-- `connector_configs[cfg.token] = cfg.llm_api_key`, in a loop.
unfoldable pub keys_by_token :
    List ConnectorConfigEntry → Dict (Option String) → Dict (Option String)
unfolding insert
keys_by_token [] d = d
keys_by_token (c ∷ cs) d = keys_by_token cs (insert c.token c.llm_api_key d)

-- `Broker`, where the router is the relay server's.
pub record Broker : Type 0 where
  pub config : BrokerConfig
  pub server : RelayServer
  pub request_logger : RequestLogger
  pub portal : Option Portal

-- `Broker.__init__`
unfoldable pub init : BrokerConfig → Broker
unfolding keys_by_token State.init
init config = record {
  config = config;
  server =
      State.init config.connector_tokens (keys_by_token config.connector_configs []) none
        (some Router.init);
  request_logger = RequestLogger.init 100;
  portal = none;
}

-- `_setup_web_portal`, with the three stores that it opens.
unfoldable pub setup_web_portal : UserStore → PrepromptStore → ConnectorStore → Broker → Broker
unfolding portal_enabled
setup_web_portal users preprompts connectors b =
    let server = record (b.server) { connector_store = some connectors } in
    if portal_enabled b.config
    then record b {
      server = server;
      portal = some (record {
        user_store = users;
        preprompt_store = some preprompts;
        request_logger = b.request_logger;
        server = server;
      });
    }
    else b

-- The sample connectors of the test mode.
abbrev pub mock_connectors : List (String × List String)
mock_connectors =
    ("mock-openai", "gpt-4" ∷ "gpt-4-turbo" ∷ "gpt-3.5-turbo" ∷ [])
    ∷ ("mock-anthropic", "claude-3-opus" ∷ "claude-3-sonnet" ∷ "claude-3-haiku" ∷ [])
    ∷ ("mock-local", "llama-3-70b" ∷ "mistral-7b" ∷ [])
    ∷ ("mock-qwen", "qwen2.5-coder" ∷ "qwen2.5-coder-7b" ∷ "qwen3-coder:30b" ∷ [])
    ∷ ("mock-deepseek", "deepseek-coder" ∷ "deepseek-coder-v2" ∷ [])
    ∷ []

unfoldable pub register_all : List (String × List String) → ModelRouter → ModelRouter
unfolding on_connector_registered
register_all [] r = r
register_all ((i, models) ∷ rest) r = register_all rest (on_connector_registered i models none r)

-- `_register_mock_connectors`
unfoldable pub register_mock_connectors : BrokerConfig → ModelRouter → ModelRouter
unfolding register_all
register_mock_connectors config r = if config.test_mode then register_all mock_connectors r else r
