-- ===== src/PrepromptStore.antt =====
-- broker/preprompts.py: the stored system prompts. A preprompt is known through its store alone, so
-- the dict holds the objects themselves.
use remote_llmconnector.Shared.{
  Dict, lookup, insert, remove, has, values, Env, Value, str, flag, as_flag_or, required_text,
  ◌>>=◌, ℕ, String, Bool, true, false, not, Option, none, some, List, [], ◌∷◌, map, if◌then◌else◌,
  ◌&&◌, ◌==◌,
}
pub mod Defaults
pub mod Reload

pub record Preprompt : Type 0 where
  pub name : String
  pub content : String
  pub is_default : Bool
  pub created_at : ℕ
  pub updated_at : ℕ

unfoldable pub to_dict : (ℕ → String) → Preprompt → Dict Value
to_dict isoformat p =
    ("name", str p.name)
    ∷ ("content", str p.content)
    ∷ ("is_default", flag p.is_default)
    ∷ ("created_at", str (isoformat p.created_at))
    ∷ ("updated_at", str (isoformat p.updated_at))
    ∷ []

unfoldable pub from_dict : (String → Option ℕ) → Dict Value → Option Preprompt
from_dict fromisoformat d = do
  name ← required_text "name" d
  content ← required_text "content" d
  is_default ← as_flag_or (lookup "is_default" d) false
  created_text ← required_text "created_at" d
  created_at ← fromisoformat created_text
  updated_text ← required_text "updated_at" d
  updated_at ← fromisoformat updated_text
  some (record {
    name = name;
    content = content;
    is_default = is_default;
    created_at = created_at;
    updated_at = updated_at;
  })

pub record PrepromptStore : Type 0 where
  pub preprompts : Dict Preprompt
  pub has_file : Bool
  pub disk : List (Dict Value)

abbrev pub empty : Bool → PrepromptStore
empty has_file = record { preprompts = []; has_file = has_file; disk = [] }

-- The loop of `_load`; a document that raises ends it, and what was loaded stays.
unfoldable pub load_all : (String → Option ℕ) → List (Dict Value) → PrepromptStore → PrepromptStore
unfolding from_dict
load_all fromisoformat [] s = s
load_all fromisoformat (d ∷ ds) s = elim (from_dict fromisoformat d) [
  | none ↦ s
  | some p ↦ load_all fromisoformat ds (record s { preprompts = insert p.name p s.preprompts })
]

unfoldable pub load : (String → Option ℕ) → Bool → Option (List (Dict Value)) → PrepromptStore
unfolding load_all
load fromisoformat has_file none = empty has_file
load fromisoformat has_file (some docs) =
    load_all fromisoformat docs (record (empty has_file) { disk = docs })

unfoldable pub get_all : PrepromptStore → List Preprompt
get_all s = values s.preprompts

-- `_save`; a file that cannot be written keeps its contents.
unfoldable pub save : Env → PrepromptStore → PrepromptStore
unfolding get_all to_dict
save e s =
    if s.has_file && e.writable
    then record s { disk = map (to_dict e.isoformat) (get_all s) }
    else s

unfoldable pub get_by_name : PrepromptStore → String → Option Preprompt
get_by_name s name = lookup name s.preprompts

-- The first preprompt that is marked.
unfoldable pub first_default : List Preprompt → Option Preprompt
first_default [] = none
first_default (p ∷ ps) = if p.is_default then some p else first_default ps

unfoldable pub get_default : PrepromptStore → Option Preprompt
unfolding first_default
get_default s = first_default (values s.preprompts)

-- A loop over the values that changes each object.
unfoldable pub map_values : (Preprompt → Preprompt) → Dict Preprompt → Dict Preprompt
map_values f [] = []
map_values f ((k, p) ∷ d) = (k, f p) ∷ map_values f d

-- `if p.name != name: p.is_default = False`
abbrev pub unset_other : String → Preprompt → Preprompt
unset_other name p = if p.name == name then p else record p { is_default = false }

-- The object that `create_or_update` makes or changes.
abbrev pub updated : Env → String → String → Bool → Option Preprompt → Preprompt
updated e name content is_default none = record {
  name = name;
  content = content;
  is_default = is_default;
  created_at = e.now;
  updated_at = e.now;
}
updated e name content is_default (some p) = record p {
  content = content;
  is_default = is_default;
  updated_at = e.now;
}

unfoldable pub create_or_update :
    Env → String → String → Bool → PrepromptStore → Preprompt × PrepromptStore
unfolding save map_values
create_or_update e name content is_default s =
    let p = updated e name content is_default (lookup name s.preprompts) in
    let d = insert name p s.preprompts in
    (
      p,
      save e (record s { preprompts = if is_default then map_values (unset_other name) d else d }),
    )

abbrev pub mark : String → Preprompt → Preprompt
mark name p = record p { is_default = p.name == name }

unfoldable pub set_default : Env → String → PrepromptStore → Bool × PrepromptStore
unfolding save map_values
set_default e name s = elim (lookup name s.preprompts) [
  | none ↦ (false, s)
  | some p ↦ (true, save e (record s { preprompts = map_values (mark name) s.preprompts }))
]

unfoldable pub delete : Env → String → PrepromptStore → Bool × PrepromptStore
unfolding save
delete e name s =
    if has name s.preprompts
    then (true, save e (record s { preprompts = remove name s.preprompts }))
    else (false, s)
