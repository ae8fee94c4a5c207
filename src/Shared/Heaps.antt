-- ===== src/Shared/Heaps.antt =====
-- Objects that two dicts share: cells by reference, so that a change through one dict is seen
-- through the other. And what an operation takes from its surroundings.
use Prim.Native.Nat.{ℕ}
use Prim.Native.String.{String}
use mathlib.Core.Bool.{Bool}
use mathlib.Core.List.{List, [], ◌∷◌}
use mathlib.Core.Option.{Option, none, some}
use remote_llmconnector.Shared.Tests.{if◌then◌else◌, eqb}

abbrev pub Heap {ℓ} : Type ℓ → Type ℓ
Heap A = ℕ → Option A

unfoldable pub write {ℓ} : {A : Type ℓ} → ℕ → A → Heap A → Heap A
write r a h j = if eqb r j then some a else h j

-- The object that a dict's entry refers to, with its reference.
abbrev pub deref {ℓ} : {A : Type ℓ} → Heap A → Option ℕ → Option (ℕ × A)
deref h none = none
deref h (some r) = elim (h r) [ none ↦ none | some a ↦ some (r, a) ]

-- The objects that a dict's values refer to.
abbrev pub objects {ℓ} : {A : Type ℓ} → Heap A → List ℕ → List A
objects h [] = []
objects h (r ∷ rs) = elim (h r) [ none ↦ objects h rs | some a ↦ a ∷ objects h rs ]

-- The clock during a call (`datetime.utcnow()`), the digits that `uuid` or `secrets` draw in it,
-- whether the store's file can be written, and `datetime.isoformat`.
pub record Env : Type 0 where
  pub now : ℕ
  pub hex : String
  pub writable : Bool
  pub isoformat : ℕ → String
