-- ===== src/Shared/Objects.antt =====
-- The objects that a dict refers to, in the dict's order: what is written to a file and loaded again.
use Prim.Native.Nat.{ℕ, ◌+◌, ◌<◌}
use Prim.Native.String.{String}
use mathlib.Core.Path.{◌≡◌, refl, ap, ◌∙◌}
use mathlib.Core.Logic.{inl, inr}
use mathlib.Core.List.{List, [], ◌∷◌, ◌++◌}
use mathlib.Core.Option.{none, some}
use native.Mathlib.Omega.{arith}
use text.Mathlib.TextEquality.{eq_iff}
use remote_llmconnector.Shared.Tests.{Option-cases}
use remote_llmconnector.Shared.Dicts.{Dict, lookup, insert, values, insert_fresh, IsUnique}
use remote_llmconnector.Shared.Heaps.{Heap, write, objects}

abbrev pub AllBelow : ℕ → List ℕ → Type 0
AllBelow n [] = Unit
AllBelow n (r ∷ rs) = (r < n) × AllBelow n rs

append-AllBelow : (n : ℕ) (rs : List ℕ) → AllBelow n rs → AllBelow (n + 1) (rs ++ (n ∷ []))
append-AllBelow n [] h = (omega arith, tt)
append-AllBelow n (r ∷ rs) h =
    let (below, rest) = h in (omega (arith, below), append-AllBelow n rs rest)

values-append :
    (d : Dict ℕ) (k : String) (r : ℕ) → values (d ++ ((k, r) ∷ [])) ≡ values d ++ (r ∷ [])
values-append [] k r = refl
values-append ((j, q) ∷ d) k r = ap (λ l. q ∷ l) (values-append d k r)

pub values-AllBelow :
    (k : String) (n : ℕ) (d : Dict ℕ)
    → lookup k d ≡ none
    → AllBelow n (values d)
    → AllBelow (n + 1) (values (insert k n d))
values-AllBelow k n d h below =
    rw (insert_fresh k n d h, values-append d) (append-AllBelow n (values d) below)

module _ {ℓ} {A : Type ℓ} where
  objects-write :
      (n : ℕ) (a : A) (cells : Heap A) (rs : List ℕ)
      → AllBelow n rs
      → objects (write n a cells) rs ≡ objects cells rs
  unfolding write
  objects-write n a cells [] h = refl
  objects-write n a cells (r ∷ rs) h = ground (arith, objects-write n a cells rs h.1)

  objects-append :
      (cells : Heap A) (rs : List ℕ) (r : ℕ) (a : A)
      → cells r ≡ some a
      → objects cells (rs ++ (r ∷ [])) ≡ objects cells rs ++ (a ∷ [])
  objects-append cells [] r a h = rw h refl
  objects-append cells (q ∷ rs) r a h = elim (Option-cases (cells q)) [
    | inl x ↦ rw (x, objects) (objects-append cells rs r a h)
    | inr (b, x) ↦ rw (x, objects) (ap (λ l. b ∷ l) (objects-append cells rs r a h))
  ]

  written_cell : (n : ℕ) (a : A) (cells : Heap A) → write n a cells n ≡ some a
  unfolding write
  written_cell n a cells = ground arith

  -- A new object under a new key comes last.
  pub objects-insert :
      (k : String) (n : ℕ) (a : A) (cells : Heap A) (d : Dict ℕ)
      → lookup k d ≡ none
      → AllBelow n (values d)
      → objects (write n a cells) (values (insert k n d)) ≡ objects cells (values d) ++ (a ∷ [])
  objects-insert k n a cells d h below =
      rw (insert_fresh k n d h, values-append d)
        (objects-append (write n a cells) (values d) n a (written_cell n a cells)
          ∙ ap (λ l. l ++ (a ∷ [])) (objects-write n a cells (values d) below))

module _ {ℓ} {A : Type ℓ} (name : A → String) where
  -- Objects under their names.
  abbrev pub keyed : List A → Dict A
  keyed [] = []
  keyed (a ∷ rest) = (name a, a) ∷ keyed rest

  -- Every entry refers to an object of that name.
  abbrev pub AllOwn : Heap A → Dict ℕ → Type ℓ
  AllOwn cells [] = Unit
  AllOwn cells ((n, r) ∷ d) = (a : A) × (cells r ≡ some a) × (name a ≡ n) × AllOwn cells d

  lookup-keyed :
      (cells : Heap A) (d : Dict ℕ) (k : String)
      → AllOwn cells d
      → lookup k d ≡ none
      → lookup k (keyed (objects cells (values d))) ≡ none
  unfolding lookup
  lookup-keyed cells [] k o h = refl
  lookup-keyed cells ((n, r) ∷ d) k o h =
      let (a, held, named, rest) = o in
      rw (held, objects) (rw named (ground (arith, lookup-keyed cells d k rest)))

  -- Different keys, different names.
  pub keyed-IsUnique :
      (cells : Heap A) (d : Dict ℕ)
      → AllOwn cells d
      → IsUnique d
      → IsUnique (keyed (objects cells (values d)))
  keyed-IsUnique cells [] o v = tt
  keyed-IsUnique cells ((n, r) ∷ d) o v =
      let (a, held, named, rest) = o in
      rw (held, objects)
        (rw named (lookup-keyed cells d n rest (v.0)), keyed-IsUnique cells d rest v.1)

  pub lookup-AllOwn :
      (cells : Heap A) (d : Dict ℕ)
      → IsUnique d
      → ((n : String) (r : ℕ) → lookup n d ≡ some r → (a : A) × (cells r ≡ some a) × (name a ≡ n))
      → AllOwn cells d
  unfolding lookup
  lookup-AllOwn cells [] w h = tt
  lookup-AllOwn cells ((n, r) ∷ d) w h =
      let (a, held, named) = h n r (rw ((eq_iff n n).1 refl) refl) in
      (a, held, named, lookup-AllOwn cells d w.1 (λ m q g. h m q (ground (arith, eq_iff n m))))
