-- ===== src/ConnectorStore/Store.antt =====
-- broker/connectors.py, `ConnectorStore`: loading, saving, and the operations on the store.
use Prim.Native.String.{◌++◌ as append}
use remote_llmconnector.Shared.{
  Dict, lookup, insert, remove, has, values, Heap, write, deref, objects, Env, Value, ℕ, ◌+◌,
  String, Bool, true, false, Option, none, some, List, [], ◌∷◌, map, truthy, if◌then◌else◌, ◌&&◌,
  select,
}
use remote_llmconnector.ConnectorStore.Document.{
  ConnectorStatus, Connector, is_pending, is_approved, is_revoked, to_dict, from_dict,
}

pub record ConnectorStore : Type 0 where
  pub connectors : Dict ℕ
  pub index : Dict ℕ
  pub cells : Heap Connector
  pub next : ℕ
  pub has_file : Bool
  pub disk : List (Dict Value)

abbrev pub empty : Bool → ConnectorStore
empty has_file = record {
  connectors = [];
  index = [];
  cells = λ _. none;
  next = 0;
  has_file = has_file;
  disk = [];
}

-- `if connector.api_key: self._api_key_index[connector.api_key] = connector`
unfoldable pub index_key : Option String → ℕ → Dict ℕ → Dict ℕ
index_key none r index = index
index_key (some key) r index = if truthy key then insert key r index else index

-- One round of the loop of `_load`: a new object for the document.
unfoldable pub load_connector : Connector → ConnectorStore → ConnectorStore
unfolding index_key
load_connector c s = record s {
  connectors = insert c.connector_id s.next s.connectors;
  index = index_key c.api_key s.next s.index;
  cells = write s.next c s.cells;
  next = s.next + 1;
}

-- The loop of `_load`; a document that raises ends it, and what was loaded stays.
unfoldable pub load_all : (String → Option ℕ) → List (Dict Value) → ConnectorStore → ConnectorStore
unfolding load_connector from_dict
load_all fromisoformat [] s = s
load_all fromisoformat (d ∷ ds) s = elim (from_dict fromisoformat d) [
  | none ↦ s
  | some c ↦ load_all fromisoformat ds (load_connector c s)
]

-- `_load`, with `none` where the file is absent, unreadable, or has no `connectors` entry.
unfoldable pub load : (String → Option ℕ) → Bool → Option (List (Dict Value)) → ConnectorStore
unfolding load_all
load fromisoformat has_file none = empty has_file
load fromisoformat has_file (some docs) =
    load_all fromisoformat docs (record (empty has_file) { disk = docs })

unfoldable pub get_all : ConnectorStore → List Connector
get_all s = objects s.cells (values s.connectors)

-- `_save`; a file that cannot be written keeps its contents.
unfoldable pub save : Env → ConnectorStore → ConnectorStore
unfolding get_all
save e s =
    if s.has_file && e.writable
    then record s { disk = map (to_dict e.isoformat) (get_all s) }
    else s

unfoldable pub get_by_id : ConnectorStore → String → Option (ℕ × Connector)
get_by_id s connector_id = deref s.cells (lookup connector_id s.connectors)

unfoldable pub get_by_api_key : ConnectorStore → String → Option (ℕ × Connector)
get_by_api_key s api_key = deref s.cells (lookup api_key s.index)

unfoldable pub get_pending : ConnectorStore → List Connector
unfolding get_all
get_pending s = select (λ c. is_pending c.status) (get_all s)

unfoldable pub get_approved : ConnectorStore → List Connector
unfolding get_all
get_approved s = select (λ c. is_approved c.status) (get_all s)

unfoldable pub get_revoked : ConnectorStore → List Connector
unfolding get_all
get_revoked s = select (λ c. is_revoked c.status) (get_all s)

-- The object that `create_pending` makes.
abbrev pub pending_connector : Env → List String → Option String → Connector
pending_connector e models name = record {
  connector_id = append "conn-" e.hex;
  api_key = none;
  name = name;
  models = models;
  status = ConnectorStatus.pending;
  created_at = e.now;
  last_used = none;
  last_connected = some e.now;
}

unfoldable pub create_pending :
    Env → List String → Option String → ConnectorStore → Connector × ConnectorStore
unfolding save
create_pending e models name s =
    let c = pending_connector e models name in
    (
      c,
      save e (record s {
        connectors = insert c.connector_id s.next s.connectors;
        cells = write s.next c s.cells;
        next = s.next + 1;
      }),
    )

unfoldable pub approve : Env → String → ConnectorStore → Option String × ConnectorStore
unfolding save get_by_id
approve e connector_id s = elim (get_by_id s connector_id) [
  | none ↦ (none, s)
  | some (r, c) ↦
      let api_key = append "ck-" e.hex in
      if is_pending c.status
      then (
        some api_key,
        save e (record s {
          cells =
              write r (record c { api_key = some api_key; status = ConnectorStatus.approved })
                s.cells;
          index = insert api_key r s.index;
        }),
      )
      else (none, s)
]

-- `if connector.api_key and connector.api_key in self._api_key_index: del ...`
unfoldable pub drop_key : Option String → Dict ℕ → Dict ℕ
drop_key none index = index
drop_key (some key) index = if truthy key && has key index then remove key index else index

unfoldable pub revoke : Env → String → ConnectorStore → Bool × ConnectorStore
unfolding save get_by_id drop_key
revoke e connector_id s = elim (get_by_id s connector_id) [
  | none ↦ (false, s)
  | some (r, c) ↦ (
    true,
    save e (record s {
      cells = write r (record c { status = ConnectorStatus.revoked }) s.cells;
      index = drop_key c.api_key s.index;
    }),
  )
]

unfoldable pub delete : Env → String → ConnectorStore → Bool × ConnectorStore
unfolding save get_by_id drop_key
delete e connector_id s = elim (get_by_id s connector_id) [
  | none ↦ (false, s)
  | some (r, c) ↦ (
    true,
    save e (record s {
      index = drop_key c.api_key s.index;
      connectors = remove connector_id s.connectors;
    }),
  )
]

-- Setting one attribute of the object at a reference.
abbrev pub modify_at :
    (Connector → Connector) → ℕ → Option Connector → Heap Connector → Heap Connector
modify_at f r none cells = cells
modify_at f r (some c) cells = write r (f c) cells

abbrev pub modify : (Connector → Connector) → ℕ → Heap Connector → Heap Connector
modify f r cells = modify_at f r (cells r) cells

unfoldable pub update_last_used : Env → ℕ → ConnectorStore → ConnectorStore
unfolding save
update_last_used e r s =
    save e (record s { cells = modify (λ c. record c { last_used = some e.now }) r s.cells })

unfoldable pub update_last_connected : Env → ℕ → ConnectorStore → ConnectorStore
unfolding save
update_last_connected e r s =
    save e (record s { cells = modify (λ c. record c { last_connected = some e.now }) r s.cells })

unfoldable pub update_models : Env → String → List String → ConnectorStore → Bool × ConnectorStore
unfolding save get_by_id
update_models e connector_id models s = elim (get_by_id s connector_id) [
  | none ↦ (false, s)
  | some (r, c) ↦
      (true, save e (record s { cells = write r (record c { models = models }) s.cells }))
]

unfoldable pub validate_api_key : ConnectorStore → String → Option (ℕ × Connector)
unfolding get_by_api_key
validate_api_key s api_key = elim (get_by_api_key s api_key) [
  | none ↦ none
  | some (r, c) ↦ if is_approved c.status then some (r, c) else none
]
