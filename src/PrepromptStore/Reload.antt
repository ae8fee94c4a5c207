-- ===== src/PrepromptStore/Reload.antt =====
-- The file of broker/preprompts.py: what `_load` makes of what `_save` wrote.
use mathlib.Core.List.{append_assoc, append-nil}
use remote_llmconnector.Shared.{
  Dict, lookup, insert, values, Env, ℕ, String, Bool, true, Option, some, [], ◌∷◌, ◌++◌, map, ◌≡◌,
  refl, ap, sym, ◌∙◌, insert_fresh, IsUnique, IsApart, append-IsApart, nil-IsApart,
}
use remote_llmconnector.PrepromptStore.{
  Preprompt, PrepromptStore, empty, to_dict, from_dict, load_all, load, get_all, save,
}
use remote_llmconnector.PrepromptStore.Defaults.{IsNamed, Reach, preprompts-IsValid}

module _ (isoformat : ℕ → String) (fromisoformat : String → Option ℕ)
    (reads : (t : ℕ) → fromisoformat (isoformat t) ≡ some t) where
  from_dict-to_dict_preprompt :
      (p : Preprompt) → from_dict fromisoformat (to_dict isoformat p) ≡ some p
  unfolding from_dict to_dict lookup
  from_dict-to_dict_preprompt p = rw (reads p.created_at, reads p.updated_at) refl

  load_all-values :
      (d : Dict Preprompt) (s : PrepromptStore)
      → IsNamed d
      → IsUnique d
      → IsApart d s.preprompts
      → (load_all fromisoformat (map (to_dict isoformat) (values d)) s).preprompts
        ≡ s.preprompts ++ d
  unfolding load_all
  load_all-values [] s n u a = sym (append-nil s.preprompts)
  load_all-values ((k, p) ∷ d) s n u a =
      let rest = map (to_dict isoformat) (values d) in
      let acc = s.preprompts ++ ((k, p) ∷ []) in
      let entered : insert p.name p s.preprompts ≡ acc =
        ap (λ j. insert j p s.preprompts) (n.0) ∙ insert_fresh k p s.preprompts (a.0) in
      rw (from_dict-to_dict_preprompt p, load_all)
        (ap (λ x. (load_all fromisoformat rest (record s { preprompts = x })).preprompts) entered
          ∙ load_all-values d (record s { preprompts = acc }) n.1 u.1
              (append-IsApart k p d s.preprompts (u.0) a.1)
          ∙ append_assoc s.preprompts ((k, p) ∷ []) d)

-- Whatever the operations have made of a preprompt store, where the store saves to a file that can
-- be written, loading that file gives the same preprompts, in the same order, with the same
-- default. (`fromisoformat` reads what `isoformat` writes.)
pub preprompts-load :
    (fromisoformat : String → Option ℕ) (b : Bool) (e : Env) {s : PrepromptStore}
    → ((t : ℕ) → fromisoformat (e.isoformat t) ≡ some t)
    → Reach (empty b) s
    → s.has_file ≡ true
    → e.writable ≡ true
    → (load fromisoformat true (some (save e s).disk)).preprompts ≡ s.preprompts
unfolding load save get_all
preprompts-load fromisoformat b e {s} reads reach file writable =
    let v = preprompts-IsValid b reach in
    let docs = map (to_dict e.isoformat) (values s.preprompts) in
    let written : (save e s).disk ≡ docs = rw (file, writable, save) refl in
    ap (λ x. (load_all fromisoformat x (record (empty true) { disk = x })).preprompts) written
    ∙ load_all-values e.isoformat fromisoformat reads s.preprompts
        (record (empty true) { disk = docs }) v.named v.unique (nil-IsApart s.preprompts [] refl)
