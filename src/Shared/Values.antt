-- ===== src/Shared/Values.antt =====
-- The values that the program's documents and message payloads hold: what YAML and JSON files and
-- Python's `dict[str, Any]` give back. A value of any other shape is `other`, with its truth value.
use Prim.Native.Nat.{ℕ}
use Prim.Native.String.{String}
use mathlib.Core.Bool.{Bool, true, false, not}
use mathlib.Core.List.{List, [], ◌∷◌}
use mathlib.Core.Option.{Option, none, some}
use remote_llmconnector.Shared.Tests.{truthy, eqb}
use remote_llmconnector.Shared.Dicts.{Dict, lookup}

pub data Value : Type 0 where
  null : Value
  str : String → Value
  flag : Bool → Value
  number : ℕ → Value
  strs : List String → Value
  table : Dict String → Value
  other : Bool → Value

-- A value that has to be a text, or a text or None.
abbrev pub as_text : Value → Option String
as_text (str s) = some s
as_text _ = none

abbrev pub as_optional_text : Option Value → Option (Option String)
as_optional_text none = some none
as_optional_text (some null) = some none
as_optional_text (some (str s)) = some (some s)
as_optional_text (some _) = none

-- A list of texts, with the default for a missing key.
abbrev pub as_texts : Option Value → List String → Option (List String)
as_texts none d = some d
as_texts (some (strs l)) d = some l
as_texts (some _) d = none

-- A text with a default for a missing key.
abbrev pub as_text_or : Option Value → String → Option String
as_text_or none d = some d
as_text_or (some (str s)) d = some s
as_text_or (some _) d = none

abbrev pub as_flag_or : Option Value → Bool → Option Bool
as_flag_or none d = some d
as_flag_or (some (flag b)) d = some b
as_flag_or (some _) d = none

abbrev pub optional_text : Option String → Value
optional_text none = null
optional_text (some s) = str s

abbrev pub as_table : Option Value → Option (Dict String)
as_table (some (table d)) = some d
as_table _ = none

-- A required text field of a document.
abbrev pub required_text : String → Dict Value → Option String
required_text k d = elim (lookup k d) [ none ↦ none | some v ↦ as_text v ]

infixl 5 ◌>>=◌
abbrev pub ◌>>=◌ {ℓ κ} : {A : Type ℓ} {B : Type κ} → Option A → (A → Option B) → Option B
none >>= f = none
some a >>= f = f a

-- Python's truth value.
unfoldable pub truth : Value → Bool
truth null = false
truth (str s) = truthy s
truth (flag b) = b
truth (number n) = not (eqb n 0)
truth (strs []) = false
truth (strs (x ∷ xs)) = true
truth (table []) = false
truth (table (x ∷ xs)) = true
truth (other b) = b

abbrev pub truth_of : Option Value → Bool
truth_of none = false
truth_of (some v) = truth v

abbrev pub field : String → Option (Dict Value) → Option Value
field k none = none
field k (some d) = lookup k d
