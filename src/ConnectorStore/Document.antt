-- ===== src/ConnectorStore/Document.antt =====
-- broker/connectors.py, `ConnectorStatus` and `Connector`: the object and its YAML document. A
-- document whose fields have other types than the class declares is refused.
use remote_llmconnector.Shared.{
  Dict, lookup, Value, null, str, strs, as_optional_text, as_texts, as_text_or, optional_text,
  required_text, ◌>>=◌, ℕ, String, Bool, true, false, Option, none, some, List, [], ◌∷◌, truthy,
  if◌then◌else◌, ◌==◌, ◌≡◌, refl,
}

pub data ConnectorStatus : Type 0 where
  pending approved revoked : ConnectorStatus

abbrev pub is_pending : ConnectorStatus → Bool
is_pending pending = true
is_pending _ = false

abbrev pub is_approved : ConnectorStatus → Bool
is_approved approved = true
is_approved _ = false

abbrev pub is_revoked : ConnectorStatus → Bool
is_revoked revoked = true
is_revoked _ = false

pub record Connector : Type 0 where
  pub connector_id : String
  pub api_key : Option String
  pub name : Option String
  pub models : List String
  pub status : ConnectorStatus
  pub created_at : ℕ
  pub last_used : Option ℕ
  pub last_connected : Option ℕ

-- `ConnectorStatus.value`, and the constructor from a value, which may raise.
unfoldable pub status_value : ConnectorStatus → String
status_value pending = "pending"
status_value approved = "approved"
status_value revoked = "revoked"

unfoldable pub status_of_value : String → Option ConnectorStatus
status_of_value s =
    if s == "pending"
    then some pending
    else if s == "approved"
    then some approved
    else if s == "revoked"
    then some revoked
    else none

abbrev pub optional_time : (ℕ → String) → Option ℕ → Value
optional_time isoformat none = null
optional_time isoformat (some t) = str (isoformat t)

-- `fromisoformat(data[k]) if data.get(k) else None`
abbrev pub read_time : (String → Option ℕ) → Option Value → Option (Option ℕ)
read_time fromisoformat none = some none
read_time fromisoformat (some null) = some none
read_time fromisoformat (some (str s)) =
    if truthy s then (do t ← fromisoformat s; some (some t)) else some none
read_time fromisoformat (some _) = none

unfoldable pub to_dict : (ℕ → String) → Connector → Dict Value
unfolding status_value
to_dict isoformat c =
    ("connector_id", str c.connector_id)
    ∷ ("api_key", optional_text c.api_key)
    ∷ ("name", optional_text c.name)
    ∷ ("models", strs c.models)
    ∷ ("status", str (status_value c.status))
    ∷ ("created_at", str (isoformat c.created_at))
    ∷ ("last_used", optional_time isoformat c.last_used)
    ∷ ("last_connected", optional_time isoformat c.last_connected)
    ∷ []

unfoldable pub from_dict : (String → Option ℕ) → Dict Value → Option Connector
unfolding status_of_value
from_dict fromisoformat d = do
  connector_id ← required_text "connector_id" d
  api_key ← as_optional_text (lookup "api_key" d)
  name ← as_optional_text (lookup "name" d)
  models ← as_texts (lookup "models" d) []
  status_text ← as_text_or (lookup "status" d) "pending"
  status ← status_of_value status_text
  created_text ← required_text "created_at" d
  created_at ← fromisoformat created_text
  last_used ← read_time fromisoformat (lookup "last_used" d)
  last_connected ← read_time fromisoformat (lookup "last_connected" d)
  some (record {
    connector_id = connector_id;
    api_key = api_key;
    name = name;
    models = models;
    status = status;
    created_at = created_at;
    last_used = last_used;
    last_connected = last_connected;
  })

status_of_value-status_value : (t : ConnectorStatus) → status_of_value (status_value t) ≡ some t
unfolding status_of_value status_value
status_of_value-status_value pending = refl
status_of_value-status_value approved = refl
status_of_value-status_value revoked = refl

as_optional_text-optional_text :
    (o : Option String) → as_optional_text (some (optional_text o)) ≡ some o
as_optional_text-optional_text none = refl
as_optional_text-optional_text (some t) = refl

module _ (isoformat : ℕ → String) (fromisoformat : String → Option ℕ)
    (read_back : (t : ℕ) → fromisoformat (isoformat t) ≡ some t)
    (is_text : (t : ℕ) → truthy (isoformat t) ≡ true) where
  pub read_time-optional_time :
      (o : Option ℕ) → read_time fromisoformat (some (optional_time isoformat o)) ≡ some o
  read_time-optional_time none = refl
  read_time-optional_time (some t) = rw (is_text t) (rw (read_back t) refl)

  -- Where `datetime.fromisoformat` reads what `isoformat` writes, the document of a connector gives
  -- the connector back, in every status and whether its optional fields are set or not.
  pub from_dict-to_dict_connector :
      (c : Connector) → from_dict fromisoformat (to_dict isoformat c) ≡ some c
  unfolding from_dict to_dict lookup
  from_dict-to_dict_connector c = rw (as_optional_text-optional_text c.api_key) (
      rw (as_optional_text-optional_text c.name) (
        rw (status_of_value-status_value c.status) (
          rw (read_back c.created_at) (
            rw (read_time-optional_time c.last_used)
              (rw (read_time-optional_time c.last_connected) refl)))))
