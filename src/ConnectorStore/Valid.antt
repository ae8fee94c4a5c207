-- ===== src/ConnectorStore/Valid.antt =====
-- Well-formedness of the store: the dicts and the objects that they refer to agree. Every operation
-- keeps it.
use remote_llmconnector.Shared.{
  Dict, lookup, insert, remove, write, Env, ℕ, ◌+◌, ◌<◌, String, Bool, true, false, Option, none,
  some, ◌≡◌, ◌≢◌, refl, arith, eq_iff, truthy, Option-cases, inl, inr, lookup-insert, lookup-remove,
}
use remote_llmconnector.ConnectorStore.Document.{ConnectorStatus, Connector, is_pending}
use remote_llmconnector.ConnectorStore.Store.{
  ConnectorStore, empty, save, get_by_id, drop_key, modify_at, modify,
}

pub record IsValid (s : ConnectorStore) : Type 0 where
  -- An identity refers to an object, which has that identity.
  pub id_cell : (i : String) (r : ℕ) → lookup i s.connectors ≡ some r → s.cells r ≢ none
  pub id_own :
      (i : String) (r : ℕ) (c : Connector)
      → lookup i s.connectors ≡ some r
      → s.cells r ≡ some c
      → c.connector_id ≡ i
  -- A key in the index refers to an object with that key, known by its identity, and not pending.
  pub key_cell : (k : String) (r : ℕ) → lookup k s.index ≡ some r → s.cells r ≢ none
  pub key_own :
      (k : String) (r : ℕ) (c : Connector)
      → lookup k s.index ≡ some r
      → s.cells r ≡ some c
      → (c.api_key ≡ some k)
        × (truthy k ≡ true)
        × (is_pending c.status ≡ false)
        × (lookup c.connector_id s.connectors ≡ some r)
  -- References are handed out in order.
  pub bound : (r : ℕ) (c : Connector) → s.cells r ≡ some c → r < s.next

pub empty-IsValid : (b : Bool) → IsValid (empty b)
unfolding lookup
empty-IsValid b = record {
  id_cell = λ i r h. cc;
  id_own = λ i r c h e. cc;
  key_cell = λ k r h. cc;
  key_own = λ k r c h e. cc;
  bound = λ r c h. cc;
}

pub save-IsValid : (e : Env) (s : ConnectorStore) → IsValid s → IsValid (save e s)
unfolding save
save-IsValid e s v = record {
  id_cell = λ i r h. ground (arith, v.id_cell i r);
  id_own = λ i r c h g. ground (arith, v.id_own i r c);
  key_cell = λ k r h. ground (arith, v.key_cell k r);
  key_own = λ k r c h g. ground (arith, v.key_own k r c);
  bound = λ r c h. ground (arith, v.bound r c);
}

pub get_by_id-parts :
    (s : ConnectorStore) (i : String) (r : ℕ) (c : Connector)
    → get_by_id s i ≡ some (r, c)
    → (lookup i s.connectors ≡ some r) × (s.cells r ≡ some c)
unfolding get_by_id
get_by_id-parts s i r c h = ground arith

-- What is left in the index after a key is dropped was there before, and is not that key.
pub lookup-drop_key :
    (key : Option String) (l : String) (d : Dict ℕ) (r : ℕ)
    → lookup l (drop_key key d) ≡ some r
    → (lookup l d ≡ some r) × (truthy l ≡ true → key ≢ some l)
unfolding drop_key
lookup-drop_key none l d r h = (h, λ t e. cc)
lookup-drop_key (some k) l d r h = (
  ground (arith, lookup-remove k l d, eq_iff k l),
  λ t e. ground (arith, lookup-remove k l d, eq_iff k l),
)

module _ (s : ConnectorStore) (v : IsValid s) where
  id-lt : (i : String) (r : ℕ) → lookup i s.connectors ≡ some r → r < s.next
  id-lt i r h = elim (Option-cases (s.cells r)) [
    | inl e ↦ absurd (v.id_cell i r h e)
    | inr (c, e) ↦ v.bound r c e
  ]

  pub key-lt : (k : String) (r : ℕ) → lookup k s.index ≡ some r → r < s.next
  key-lt k r h = elim (Option-cases (s.cells r)) [
    | inl e ↦ absurd (v.key_cell k r h e)
    | inr (c, e) ↦ v.bound r c e
  ]

  -- A new object under a new identity.
  pub add-IsValid :
      (x : Connector)
      → lookup x.connector_id s.connectors ≡ none
      → IsValid (record s {
        connectors = insert x.connector_id s.next s.connectors;
        cells = write s.next x s.cells;
        next = s.next + 1;
      })
  unfolding write
  add-IsValid x fresh =
      let i₀ = x.connector_id in
      let n = s.next in
      record {
        id_cell = λ i r h. ground (arith, v.id_cell i r, lookup-insert i₀ i n s.connectors);
        id_own = λ i r c h g.
            ground
              (arith, v.id_own i r c, id-lt i r, lookup-insert i₀ i n s.connectors, eq_iff i₀ i);
        key_cell = λ k r h. ground (arith, v.key_cell k r);
        key_own = λ k r c h g. ground (
          arith,
          v.key_own k r c,
          key-lt k r h,
          lookup-insert i₀ c.connector_id n s.connectors,
          eq_iff i₀ c.connector_id,
        );
        bound = λ r c h. ground (arith, v.bound r c);
      }

  -- An object is written anew, under its identity, with a fresh entry for its key or with none.
  module _ (i : String) (r : ℕ) (c : Connector) (found : lookup i s.connectors ≡ some r)
      (held : s.cells r ≡ some c) where
    -- A pending object receives a key.
    pub key-IsValid :
        (k : String) (st : ConnectorStatus)
        → is_pending c.status ≡ true
        → is_pending st ≡ false
        → truthy k ≡ true
        → IsValid (record s {
          cells = write r (record c { api_key = some k; status = st }) s.cells;
          index = insert k r s.index;
        })
    unfolding write
    key-IsValid k st waiting given nonempty = record {
      id_cell = λ j q h. ground (arith, v.id_cell j q);
      id_own = λ j q d h g. ground (arith, v.id_own j q d, v.id_own j r c);
      key_cell = λ l q h. ground (arith, v.key_cell l q, lookup-insert k l r s.index);
      key_own = λ l q d h g. ground (
        arith,
        v.key_own l q d,
        v.key_own l r c,
        v.id_own i r c,
        lookup-insert k l r s.index,
        eq_iff k l,
      );
      bound = λ q d h. ground (arith, v.bound q d, v.bound r c);
    }

    -- The object stays, and its key leaves the index.
    pub drop-IsValid :
        (st : ConnectorStatus)
        → IsValid (record s {
          cells = write r (record c { status = st }) s.cells;
          index = drop_key c.api_key s.index;
        })
    unfolding write
    drop-IsValid st = record {
      id_cell = λ j q h. ground (arith, v.id_cell j q);
      id_own = λ j q d h g. ground (arith, v.id_own j q d, v.id_own j r c);
      key_cell = λ l q h. ground (arith, v.key_cell l q, lookup-drop_key c.api_key l s.index q h);
      key_own = λ l q d h g.
          ground (arith, v.key_own l q d, v.key_own l r c, lookup-drop_key c.api_key l s.index q h);
      bound = λ q d h. ground (arith, v.bound q d, v.bound r c);
    }

    -- The identity goes, and the object's key leaves the index.
    pub remove-IsValid :
        IsValid
          (record s { index = drop_key c.api_key s.index; connectors = remove i s.connectors })
    remove-IsValid = record {
      id_cell = λ j q h. ground (arith, v.id_cell j q, lookup-remove i j s.connectors);
      id_own = λ j q d h g. ground (arith, v.id_own j q d, lookup-remove i j s.connectors);
      key_cell = λ l q h. ground (arith, v.key_cell l q, lookup-drop_key c.api_key l s.index q h);
      key_own = λ l q d h g. ground (
        arith,
        v.key_own l q d,
        v.key_own l r c,
        lookup-drop_key c.api_key l s.index q h,
        lookup-remove i d.connector_id s.connectors,
        eq_iff i d.connector_id,
      );
      bound = v.bound;
    }

  -- An object is changed in its models or times only.
  module _ (f : Connector → Connector) (r : ℕ)
      (same : (c : Connector)
        → ((f c).connector_id ≡ c.connector_id)
          × ((f c).api_key ≡ c.api_key)
          × ((f c).status ≡ c.status)) where
    pub modify_at-IsValid :
        (o : Option Connector)
        → s.cells r ≡ o
        → IsValid (record s { cells = modify_at f r o s.cells })
    unfolding write
    modify_at-IsValid none e = v
    modify_at-IsValid (some c) e = record {
      id_cell = λ j q h. ground (arith, v.id_cell j q);
      id_own = λ j q d h g. ground (arith, v.id_own j q d, v.id_own j r c, same c);
      key_cell = λ l q h. ground (arith, v.key_cell l q);
      key_own = λ l q d h g. ground (arith, v.key_own l q d, v.key_own l r c, same c);
      bound = λ q d h. ground (arith, v.bound q d, v.bound r c);
    }

    pub touch-IsValid : IsValid (record s { cells = modify f r s.cells })
    touch-IsValid = modify_at-IsValid (s.cells r) refl
