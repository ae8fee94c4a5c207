-- ===== src/Shared/Letters.antt =====
-- Texts by their characters: Python's `lower` and `endswith` on ASCII texts, which header names and
-- file extensions are.
use Prim.Native.Nat.{ℕ, suc, ◌+◌, ◌-◌}
use Prim.Native.Char.{Char, code}
use Prim.Native.String.{String, ◌++◌ as append}
use mathlib.Core.Bool.{Bool, true, false, ◌&&◌, ◌||◌}
use mathlib.Core.List.{List, [], ◌∷◌}
use mathlib.Core.Option.{Option, none, some}
use text.Mathlib.Text.{◌==◌}
use remote_llmconnector.Shared.Tests.{if◌then◌else◌, eqb, leb}

abbrev pub lower_code : ℕ → ℕ
lower_code c = if leb b'A' c && leb c b'Z' then c + 32 else c

-- The characters of `s.lower()`.
unfoldable pub lower : String → List ℕ
lower String.[] = []
lower (String.◌∷◌ c s) = lower_code (code c) ∷ lower s

unfoldable pub same_codes : List ℕ → List ℕ → Bool
same_codes [] [] = true
same_codes (x ∷ xs) (y ∷ ys) = eqb x y && same_codes xs ys
same_codes _ _ = false

-- `s.lower() == t`, for a `t` in small letters.
unfoldable pub is_lower : String → String → Bool
unfolding lower same_codes
is_lower s t = same_codes (lower s) (lower t)

abbrev pub cons_to : Char → Option String → Option String
cons_to c none = none
cons_to c (some s) = some (String.◌∷◌ c s)

-- `s[: -len(t)]` if `s.lower().endswith(t)`, for a `t` in small letters.
unfoldable pub strip_suffix : String → String → Option String
unfolding is_lower
strip_suffix t String.[] = if is_lower String.[] t then some String.[] else none
strip_suffix t (String.◌∷◌ c s) =
    let rest = strip_suffix t s in
    if is_lower (String.◌∷◌ c s) t then some String.[] else cons_to c rest

-- `c.isspace()`
abbrev pub is_space : ℕ → Bool
is_space c =
    leb 9 c && leb c 13
    || leb 28 c && leb c 32
    || eqb c 133
    || eqb c 160
    || eqb c 5760
    || leb 8192 c && leb c 8202
    || eqb c 8232
    || eqb c 8233
    || eqb c 8239
    || eqb c 8287
    || eqb c 12288

unfoldable pub strip_left : String → String
strip_left String.[] = String.[]
strip_left (String.◌∷◌ c s) =
    let rest = strip_left s in if is_space (code c) then rest else String.◌∷◌ c s

unfoldable pub strip_right : String → String
strip_right String.[] = String.[]
strip_right (String.◌∷◌ c s) =
    let rest = strip_right s in
    if rest == "" && is_space (code c) then String.[] else String.◌∷◌ c rest

-- `s.strip()`
unfoldable pub strip : String → String
unfolding strip_left strip_right
strip s = strip_right (strip_left s)

unfoldable pub is_prefix : String → String → Bool
is_prefix String.[] t = true
is_prefix (String.◌∷◌ c s) String.[] = false
is_prefix (String.◌∷◌ c s) (String.◌∷◌ d t) = eqb (code c) (code d) && is_prefix s t

-- `s in t`
unfoldable pub is_within : String → String → Bool
unfolding is_prefix
is_within s String.[] = is_prefix s String.[]
is_within s (String.◌∷◌ c t) = is_prefix s (String.◌∷◌ c t) || is_within s t

-- `s.rstrip("/")`
unfoldable pub strip_slashes : String → String
strip_slashes String.[] = String.[]
strip_slashes (String.◌∷◌ c s) =
    let rest = strip_slashes s in
    if rest == "" && eqb (code c) b'/' then String.[] else String.◌∷◌ c rest

abbrev pub letters : String → ℕ
letters String.[] = 0
letters (String.◌∷◌ c s) = letters s + 1

-- The first argument counts the characters that are still part of the last match.
unfoldable pub replace_from : ℕ → String → String → String → String
unfolding is_prefix
replace_from n old new String.[] = String.[]
replace_from (suc n) old new (String.◌∷◌ c s) = replace_from n old new s
replace_from Prim.Native.Nat.zero old new (String.◌∷◌ c s) =
    let here = is_prefix old (String.◌∷◌ c s) in
    let rest = replace_from (if here then letters old - 1 else 0) old new s in
    if here then append new rest else String.◌∷◌ c rest

-- `s.replace(old, new)`, for an `old` that is not empty.
unfoldable pub replace : String → String → String → String
unfolding replace_from
replace old new s = replace_from 0 old new s
