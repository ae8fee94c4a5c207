-- ===== src/Shared/Apart.antt =====
-- Dicts that share no key, for loading one dict's entries after another's.
use Prim.Native.String.{String}
use mathlib.Core.Path.{◌≡◌, refl}
use mathlib.Core.Logic.{inl, inr}
use mathlib.Core.Bool.{false}
use mathlib.Core.List.{[], ◌∷◌, ◌++◌}
use mathlib.Core.Option.{none}
use native.Mathlib.Omega.{arith}
use text.Mathlib.Text.{◌==◌}
use text.Mathlib.TextEquality.{eq_iff}
use remote_llmconnector.Shared.Tests.{Bool-cases}
use remote_llmconnector.Shared.Dicts.{Dict, lookup}

lookup-append {κ} :
    {W : Type κ} (k j : String) (w : W) (d : Dict W)
    → (k == j) ≡ false
    → lookup j d ≡ none
    → lookup j (d ++ ((k, w) ∷ [])) ≡ none
unfolding lookup
lookup-append k j w [] h g = rw h refl
lookup-append k j w ((i, x) ∷ d) h g = ground (arith, lookup-append k j w d h)

module _ {ℓ κ} {V : Type ℓ} {W : Type κ} where
  -- The keys of one dict are no keys of another.
  abbrev pub IsApart : Dict V → Dict W → Type κ
  IsApart [] d = Unit
  IsApart ((k, v) ∷ c) d = (lookup k d ≡ none) × IsApart c d

  pub nil-IsApart : (c : Dict V) (d : Dict W) → d ≡ [] → IsApart c d
  unfolding lookup
  nil-IsApart [] d h = tt
  nil-IsApart ((k, v) ∷ c) d h = (rw h refl, nil-IsApart c d h)

  pub append-IsApart :
      (k : String) (w : W) (c : Dict V) (d : Dict W)
      → lookup k c ≡ none
      → IsApart c d
      → IsApart c (d ++ ((k, w) ∷ []))
  unfolding lookup
  append-IsApart k w [] d h a = tt
  append-IsApart k w ((j, v) ∷ c) d h a = elim (Bool-cases (k == j)) [
    | inl e ↦ ground (arith, eq_iff k j, eq_iff j k)
    | inr e ↦ (
      lookup-append k j w d e (a.0),
      append-IsApart k w c d (ground (arith, eq_iff j k, eq_iff k j)) a.1,
    )
  ]
