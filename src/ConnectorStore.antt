-- ===== src/ConnectorStore.antt =====
-- broker/connectors.py: the connectors of the approval workflow. `_connectors` and `_api_key_index`
-- hold references to the same objects; `disk` is what the store's YAML file holds, as the documents
-- that `yaml.safe_load` gives back.
pub mod Document
pub mod Store
pub mod Valid
pub mod Operations
pub mod Steps
pub mod Keys
pub mod Reload
