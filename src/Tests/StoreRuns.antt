-- ===== src/Tests/StoreRuns.antt =====
-- The stores of connectors, users and preprompts at concrete inputs.
use remote_llmconnector.Shared.{
  Env, lookup, insert, remove, write, true, false, none, some, [], ◌∷◌, ◌≡◌, ◌≢◌, refl,
}
use remote_llmconnector.ConnectorStore.Document.{ConnectorStatus, Connector, is_revoked}
use remote_llmconnector.ConnectorStore.Store.{
  ConnectorStore, empty, get_all, load, save, get_by_id, get_by_api_key, create_pending, approve,
  drop_key, revoke, delete, validate_api_key,
}
use remote_llmconnector.ConnectorStore.Reload.{connectors-load}
use remote_llmconnector.ConnectorStore.Valid.{IsValid, empty-IsValid}
use remote_llmconnector.ConnectorStore.Steps.{Reach, here, next, created, approved, Reach-IsValid}
use remote_llmconnector.ConnectorStore.Keys.{
  validate-approve, validate-revoke, validate-delete, get_by_api_key-live,
}
use remote_llmconnector.Tests.Data.{
  env, env_with, clock_text, read_clock, read_clock-clock_text, truthy-clock_text,
}

-- A pending connector, one that is approved, and a second one that is approved beside it.
abbrev asked : ConnectorStore
asked = (create_pending env ("m1" ∷ []) none (empty true)).1

abbrev first : ConnectorStore
first = (approve env "conn-a1" asked).1

abbrev second : ConnectorStore
second = (create_pending (env_with "b2") ("m2" ∷ []) (some "two") first).1

abbrev third : ConnectorStore
third = (approve (env_with "b2") "conn-b2" second).1

asked-Reach : Reach (empty true) asked
unfolding lookup
asked-Reach = next here (created env ("m1" ∷ []) none refl)

first-Reach : Reach (empty true) first
first-Reach = next asked-Reach (approved env "conn-a1")

second-Reach : Reach (empty true) second
unfolding lookup insert create_pending approve get_by_id save write
second-Reach = next first-Reach (created (env_with "b2") ("m2" ∷ []) (some "two") refl)

third-Reach : Reach (empty true) third
third-Reach = next second-Reach (approved (env_with "b2") "conn-b2")

abbrev waiting_connector : Connector
waiting_connector = record {
  connector_id = "conn-a1";
  api_key = none;
  name = none;
  models = "m1" ∷ [];
  status = ConnectorStatus.pending;
  created_at = 5;
  last_used = none;
  last_connected = some 5;
}

abbrev approved_connector : Connector
approved_connector = record {
  connector_id = "conn-b2";
  api_key = some "ck-b2";
  name = some "two";
  models = "m2" ∷ [];
  status = ConnectorStatus.approved;
  created_at = 5;
  last_used = none;
  last_connected = some 5;
}

Reach-IsValid_example : IsValid third
Reach-IsValid_example = Reach-IsValid third-Reach (empty-IsValid true)

third-IsValid : IsValid third
third-IsValid = Reach-IsValid third-Reach (empty-IsValid true)

asked_connector : get_by_id asked "conn-a1" ≡ some (0, waiting_connector)
unfolding lookup insert create_pending get_by_id save write
asked_connector = refl

third_connector : get_by_id third "conn-b2" ≡ some (1, approved_connector)
unfolding lookup insert create_pending approve get_by_id save write
third_connector = refl

third_key : get_by_api_key third "ck-b2" ≡ some (1, approved_connector)
unfolding lookup insert create_pending approve get_by_id get_by_api_key save write
third_key = refl

revoked_other :
    validate_api_key (revoke env "conn-a1" third).1 "ck-b2" ≡ some (1, approved_connector)
unfolding lookup insert remove create_pending approve get_by_id get_by_api_key save write revoke
    drop_key validate_api_key
revoked_other = refl

deleted_other :
    validate_api_key (delete env "conn-a1" third).1 "ck-b2" ≡ some (1, approved_connector)
unfolding lookup insert remove create_pending approve get_by_id get_by_api_key save write delete
    drop_key validate_api_key
deleted_other = refl

validate-approve_example :
    ((approve env "conn-a1" asked).0 ≡ some "ck-a1")
    × (validate_api_key (approve env "conn-a1" asked).1 "ck-a1"
        ≡ some (
          0,
          record waiting_connector { api_key = some "ck-a1"; status = ConnectorStatus.approved },
        ))
validate-approve_example =
    validate-approve env asked "conn-a1" 0 waiting_connector asked_connector refl

validate-revoke_example :
    (approved_connector.connector_id ≢ "conn-a1")
    × (validate_api_key third "ck-b2" ≡ some (1, approved_connector))
validate-revoke_example =
    validate-revoke env third "conn-a1" "ck-b2" 1 approved_connector third-IsValid revoked_other

validate-delete_example :
    (approved_connector.connector_id ≢ "conn-a1")
    × (validate_api_key third "ck-b2" ≡ some (1, approved_connector))
validate-delete_example =
    validate-delete env third "conn-a1" "ck-b2" 1 approved_connector third-IsValid deleted_other

get_by_api_key-live_example : is_revoked approved_connector.status ≡ false
get_by_api_key-live_example = get_by_api_key-live "ck-b2" 1 approved_connector third-Reach third_key

-- A clock whose texts can be read back.
abbrev clock_env : Env
clock_env = record env { isoformat = clock_text }

third_file : third.has_file ≡ true
unfolding create_pending approve get_by_id lookup insert write save
third_file = refl

connectors-load_example :
    get_all (load read_clock true (some (save clock_env third).disk)) ≡ get_all third
connectors-load_example =
    connectors-load read_clock true clock_env read_clock-clock_text truthy-clock_text third-Reach
      third_file refl
