-- ===== src/PrepromptStore/Defaults.antt =====
-- At most one preprompt is the default, after every operation of the store of broker/preprompts.py.
use remote_llmconnector.Shared.{
  Dict, lookup, insert, remove, has, values, Env, String, Bool, true, false, Option, none, some, [],
  ◌∷◌, ◌≡◌, refl, sym, ◌∙◌, arith, eq_iff, Option-cases, Bool-cases, inl, inr, lookup-insert,
  lookup-remove, IsUnique, insert-IsUnique, remove-IsUnique,
}
use remote_llmconnector.PrepromptStore.{
  Preprompt, PrepromptStore, empty, save, first_default, get_default, map_values, unset_other,
  updated, create_or_update, mark, set_default, delete,
}

-- Every preprompt stands under its own name.
abbrev pub IsNamed : Dict Preprompt → Type 0
IsNamed [] = Unit
IsNamed ((k, p) ∷ d) = (p.name ≡ k) × IsNamed d

pub record IsValid (d : Dict Preprompt) : Type 0 where
  pub named : IsNamed d
  pub unique : IsUnique d
  pub single :
      (j k : String) (p q : Preprompt)
      → lookup j d ≡ some p
      → lookup k d ≡ some q
      → p.is_default ≡ true
      → q.is_default ≡ true
      → j ≡ k

lookup-IsNamed :
    (k : String) (d : Dict Preprompt) (p : Preprompt) → IsNamed d → lookup k d ≡ some p → p.name ≡ k
unfolding lookup
lookup-IsNamed k [] p u h = cc
lookup-IsNamed k ((j, q) ∷ d) p u h = ground (arith, eq_iff j k, lookup-IsNamed k d p u.1)

insert-IsNamed :
    (k : String) (p : Preprompt) (d : Dict Preprompt)
    → p.name ≡ k
    → IsNamed d
    → IsNamed (insert k p d)
unfolding insert
insert-IsNamed k p [] h u = (h, tt)
insert-IsNamed k p ((j, q) ∷ d) h u = ground (arith, eq_iff j k, insert-IsNamed k p d h u.1)

remove-IsNamed : (k : String) (d : Dict Preprompt) → IsNamed d → IsNamed (remove k d)
unfolding remove
remove-IsNamed k [] u = tt
remove-IsNamed k ((j, q) ∷ d) u = ground (arith, remove-IsNamed k d u.1)

module _ (f : Preprompt → Preprompt) where
  abbrev map_option : Option Preprompt → Option Preprompt
  map_option none = none
  map_option (some p) = some (f p)

  lookup-map_values :
      (k : String) (d : Dict Preprompt) → lookup k (map_values f d) ≡ map_option (lookup k d)
  unfolding lookup map_values
  lookup-map_values k [] = refl
  lookup-map_values k ((j, p) ∷ d) = ground (arith, lookup-map_values k d)

  map_values-IsUnique : (d : Dict Preprompt) → IsUnique d → IsUnique (map_values f d)
  unfolding map_values
  map_values-IsUnique [] u = tt
  map_values-IsUnique ((j, p) ∷ d) u =
      (rw lookup-map_values (rw (u.0) refl), map_values-IsUnique d u.1)

  map_values-IsNamed :
      (d : Dict Preprompt)
      → ((p : Preprompt) → (f p).name ≡ p.name)
      → IsNamed d
      → IsNamed (map_values f d)
  unfolding map_values
  map_values-IsNamed [] h u = tt
  map_values-IsNamed ((j, p) ∷ d) h u = (h p ∙ u.0, map_values-IsNamed d h u.1)

-- Where only the preprompt of one name can be a default, there is one default at most.
only-IsValid :
    (name : String) (d : Dict Preprompt)
    → IsNamed d
    → IsUnique d
    → ((k : String) (p : Preprompt) → lookup k d ≡ some p → p.is_default ≡ true → k ≡ name)
    → IsValid d
only-IsValid name d u v h = record {
  named = u;
  unique = v;
  single = λ j k p q a b f g. h j p a f ∙ sym (h k q b g);
}

module _ (d : Dict Preprompt) (v : IsValid d) (name : String) where
  marked-IsValid : IsValid (map_values (mark name) d)
  marked-IsValid =
      only-IsValid name (map_values (mark name) d)
        (map_values-IsNamed (mark name) d (λ p. refl) v.named)
        (map_values-IsUnique (mark name) d v.unique)
        (λ k p a f. elim (Option-cases (lookup k d)) [
          | inl e ↦ ground (arith, lookup-map_values (mark name) k d)
          | inr (q, e) ↦ ground (
            arith,
            lookup-map_values (mark name) k d,
            lookup-IsNamed k d q v.named,
            eq_iff q.name name,
          )
        ])

  remove-IsValid : IsValid (remove name d)
  remove-IsValid = record {
    named = remove-IsNamed name d v.named;
    unique = remove-IsUnique name d v.unique;
    single = λ j k p q a b f g.
        ground (arith, v.single j k p q, lookup-remove name j d, lookup-remove name k d);
  }

  module _ (p : Preprompt) (h : p.name ≡ name) where
    abbrev inserted : Dict Preprompt
    inserted = insert name p d

    plain-IsValid : p.is_default ≡ false → IsValid inserted
    plain-IsValid n = record {
      named = insert-IsNamed name p d h v.named;
      unique = insert-IsUnique name p d v.unique;
      single = λ j k x y a b f g.
          ground (arith, v.single j k x y, lookup-insert name j p d, lookup-insert name k p d);
    }

    unset_other_name : (q : Preprompt) → (unset_other name q).name ≡ q.name
    unset_other_name q = ground arith

    default-IsValid : IsValid (map_values (unset_other name) inserted)
    default-IsValid =
        let named = insert-IsNamed name p d h v.named in
        only-IsValid name (map_values (unset_other name) inserted)
          (map_values-IsNamed (unset_other name) inserted unset_other_name named)
          (map_values-IsUnique (unset_other name) inserted (insert-IsUnique name p d v.unique))
          (λ k x a f. elim (Option-cases (lookup k inserted)) [
            | inl e ↦ ground (arith, lookup-map_values (unset_other name) k inserted)
            | inr (q, e) ↦ ground (
              arith,
              lookup-map_values (unset_other name) k inserted,
              lookup-IsNamed k inserted q named,
              eq_iff q.name name,
            )
          ])

-- One operation of the store.
pub data Step (s : PrepromptStore) : PrepromptStore → Type 0 where
  written :
      (e : Env) (name content : String) (is_default : Bool)
      → Step s (create_or_update e name content is_default s).1
  chosen : (e : Env) (name : String) → Step s (set_default e name s).1
  deleted : (e : Env) (name : String) → Step s (delete e name s).1

pub data Reach (s : PrepromptStore) : PrepromptStore → Type 0 where
  here : Reach s s
  next : {t u : PrepromptStore} → Reach s t → Step t u → Reach s u

save-preprompts : (e : Env) (s : PrepromptStore) → (save e s).preprompts ≡ s.preprompts
unfolding save
save-preprompts e s = ground arith

updated-name :
    (e : Env) (name content : String) (b : Bool) (d : Dict Preprompt)
    → IsNamed d
    → ((updated e name content b (lookup name d)).name ≡ name)
      × ((updated e name content b (lookup name d)).is_default ≡ b)
updated-name e name content b d u = elim (Option-cases (lookup name d)) [
  | inl x ↦ rw x (refl, refl)
  | inr (p, x) ↦ rw x (lookup-IsNamed name d p u x, refl)
]

pub Step-IsValid : {s t : PrepromptStore} → Step s t → IsValid s.preprompts → IsValid t.preprompts
unfolding create_or_update set_default delete
Step-IsValid {s} (written e name content true) v =
    let p = updated e name content true (lookup name s.preprompts) in
    let (n, m) = updated-name e name content true s.preprompts v.named in
    rw save-preprompts (default-IsValid s.preprompts v name p n)
Step-IsValid {s} (written e name content false) v =
    let p = updated e name content false (lookup name s.preprompts) in
    let (n, m) = updated-name e name content false s.preprompts v.named in
    rw save-preprompts (plain-IsValid s.preprompts v name p n m)
Step-IsValid {s} (chosen e name) v = elim (Option-cases (lookup name s.preprompts)) [
  | inl x ↦ rw (x, set_default) v
  | inr (p, x) ↦ rw (x, set_default) (rw save-preprompts (marked-IsValid s.preprompts v name))
]
Step-IsValid {s} (deleted e name) v = elim (Bool-cases (has name s.preprompts)) [
  | inl x ↦ rw (x, delete) (rw save-preprompts (remove-IsValid s.preprompts v name))
  | inr x ↦ rw (x, delete) v
]

-- After any operations on an empty store, every preprompt stands under its own name, and two that
-- are marked as the default are the same one.
pub preprompts-IsValid : (b : Bool) {s : PrepromptStore} → Reach (empty b) s → IsValid s.preprompts
unfolding lookup
preprompts-IsValid b here = record { named = tt; unique = tt; single = λ j k p q a c f g. cc }
preprompts-IsValid b (next r st) = Step-IsValid st (preprompts-IsValid b r)

first_default-marked :
    (name : String) (d : Dict Preprompt) (p : Preprompt)
    → IsNamed d
    → lookup name d ≡ some p
    → first_default (values (map_values (mark name) d)) ≡ some (mark name p)
unfolding lookup first_default map_values
first_default-marked name [] p u h = cc
first_default-marked name ((j, q) ∷ d) p u h =
    ground (arith, eq_iff j name, first_default-marked name d p u.1)

-- In a store that the operations lead to, `set_default` of a known name makes that preprompt the
-- default, with its content, and reports True.
pub get_default-set_default :
    (b : Bool) {s : PrepromptStore} (e : Env) (name : String) (p : Preprompt)
    → Reach (empty b) s
    → lookup name s.preprompts ≡ some p
    → let (result, t) = set_default e name s in
      (result ≡ true) × (get_default t ≡ some (record p { is_default = true }))
unfolding set_default get_default
get_default-set_default b {s} e name p reach h =
    let v = preprompts-IsValid b reach in
    let same = lookup-IsNamed name s.preprompts p v.named h in
    rw (h, set_default)
      (
        refl,
        rw save-preprompts (
            first_default-marked name s.preprompts p v.named h
            ∙ rw (same, (eq_iff name name).1 refl) refl),
      )
