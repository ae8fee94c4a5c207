-- ===== src/BrokerApi/UserKeys.antt =====
-- broker/api.py, `_validate_user_api_key`: who may use the API.
use Prim.Native.Char.{code}
use Prim.Native.String.{◌++◌ as append}
use text.Mathlib.TextLemmas.{cons-append, nil-append}
use text.Mathlib.TextEquality.{Char-path}
use remote_llmconnector.Shared.{
  String, true, Option, none, some, List, [], ◌∷◌, ◌≡◌, ◌↔◌, ◌⊎◌, inl, inr, refl, ap, arith, eqb,
  contains, if◌then◌else◌, Bool-cases, Option-cases,
}

-- `s[len(p):]` if `s.startswith(p)`.
unfoldable pub strip_prefix : String → String → Option String
strip_prefix String.[] s = some s
strip_prefix (String.◌∷◌ c p) String.[] = none
strip_prefix (String.◌∷◌ c p) (String.◌∷◌ d s) =
    if eqb (code c) (code d) then strip_prefix p s else none

-- The message of a refusal, or `none` where the request is accepted. A missing header is read as an
-- empty one.
unfoldable pub validate_user_api_key : List String → Option String → Option String
unfolding strip_prefix
validate_user_api_key [] authorization = none
validate_user_api_key (k ∷ ks) none = some "Missing or invalid Authorization header"
validate_user_api_key (k ∷ ks) (some header) = elim (strip_prefix "Bearer " header) [
  | none ↦ some "Missing or invalid Authorization header"
  | some token ↦ if contains token (k ∷ ks) then none else some "Invalid API key"
]

strip_prefix-append : (p s : String) → strip_prefix p (append p s) ≡ some s
unfolding strip_prefix
strip_prefix-append String.[] s = rw nil-append
strip_prefix-append (String.◌∷◌ c p) s =
    rw (cons-append c p s) (ground (arith, strip_prefix-append p s))

append-strip_prefix : (p s t : String) → strip_prefix p s ≡ some t → s ≡ append p t
unfolding strip_prefix
append-strip_prefix String.[] s t h = rw nil-append (ground arith)
append-strip_prefix (String.◌∷◌ c p) String.[] t h = cc
append-strip_prefix (String.◌∷◌ c p) (String.◌∷◌ d s) t h =
    elim (Bool-cases (eqb (code c) (code d))) [
      | inl e ↦
          let same : c ≡ d = Char-path c d (ground arith) in
          rw (cons-append c p t) (cc (same, append-strip_prefix p s t (rw e at h)))
      | inr e ↦ cc (rw e at h)
    ]

-- With no configured keys every request is accepted; otherwise exactly those whose Authorization
-- header is "Bearer " followed by one of the keys.
pub validate_user_api_key-accepts :
    (keys : List String) (authorization : Option String)
    → (validate_user_api_key keys authorization ≡ none) ↔ (
        (keys ≡ [])
        ⊎ ((token : String) × (authorization ≡ some (append "Bearer " token))
            × (contains token keys ≡ true)))
unfolding validate_user_api_key
validate_user_api_key-accepts [] authorization = (λ h. inl refl, λ h. refl)
validate_user_api_key-accepts (k ∷ ks) none =
    (λ h. cc, λ h. elim h [ inl e ↦ cc e | inr (t, e, c) ↦ cc e ])
validate_user_api_key-accepts (k ∷ ks) (some header) = (
  λ h. elim (Option-cases (strip_prefix "Bearer " header)) [
    | inl e ↦ cc (rw (e, validate_user_api_key) at h)
    | inr (t, e) ↦ inr (t, ap some (append-strip_prefix "Bearer " header t e), ground arith)
  ],
  λ h. elim h [
    | inl e ↦ cc e
    | inr (t, e, c) ↦
        let same : header ≡ append "Bearer " t = ground arith in
        ground (arith, strip_prefix-append "Bearer " t, ap (strip_prefix "Bearer ") same)
  ],
)
