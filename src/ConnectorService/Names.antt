-- ===== src/ConnectorService/Names.antt =====
-- connector/main.py, `_normalize_model_name`. A model's name has ASCII digits and no line break.
use Prim.Native.Char.{code}
use remote_llmconnector.Shared.{
  ℕ, String, Bool, true, false, ◌&&◌, ◌||◌, none, some, List, [], ◌∷◌, if◌then◌else◌, eqb, leb,
  strip_suffix,
}

unfoldable pub has_slash : String → Bool
has_slash String.[] = false
has_slash (String.◌∷◌ c s) = eqb (code c) b'/' || has_slash s

-- `os.path.basename`
unfoldable pub basename : String → String
unfolding has_slash
basename String.[] = String.[]
basename (String.◌∷◌ c s) =
    let rest = basename s in
    if has_slash s then rest else if eqb (code c) b'/' then s else String.◌∷◌ c s

-- The loop over the extensions: the first that fits is removed.
unfoldable pub strip_extension : List String → String → String
unfolding strip_suffix
strip_extension [] name = name
strip_extension (ext ∷ exts) name = elim (strip_suffix ext name) [
  | some stem ↦ stem
  | none ↦ strip_extension exts name
]

abbrev pub extensions : List String
extensions = ".gguf" ∷ ".bin" ∷ ".safetensors" ∷ ".pt" ∷ ".pth" ∷ ".onnx" ∷ []

abbrev pub is_digit : ℕ → Bool
is_digit c = leb b'0' c && leb c b'9'

abbrev pub is_mark : ℕ → Bool
is_mark c = eqb c b'_' || eqb c b'k' || eqb c b'K' || eqb c b'm' || eqb c b'M'

-- The expression `[-_][qQ]\d+[_kKmM]*[_\d]*$`, from its end. Each run is taken as far as it goes:
-- what a shorter run leaves fits the rest no better.
unfoldable pub fits_tail : String → Bool
fits_tail String.[] = true
fits_tail (String.◌∷◌ c s) = (eqb (code c) b'_' || is_digit (code c)) && fits_tail s

unfoldable pub fits_marks : String → Bool
unfolding fits_tail
fits_marks String.[] = true
fits_marks (String.◌∷◌ c s) =
    let rest = fits_marks s in if is_mark (code c) then rest else fits_tail (String.◌∷◌ c s)

unfoldable pub fits_digits : String → Bool
unfolding fits_marks
fits_digits String.[] = true
fits_digits (String.◌∷◌ c s) =
    let rest = fits_digits s in if is_digit (code c) then rest else fits_marks (String.◌∷◌ c s)

abbrev pub fits_count : String → Bool
fits_count String.[] = false
fits_count (String.◌∷◌ c s) = is_digit (code c) && fits_digits s

abbrev pub fits_letter : String → Bool
fits_letter String.[] = false
fits_letter (String.◌∷◌ c s) = (eqb (code c) b'q' || eqb (code c) b'Q') && fits_count s

unfoldable pub fits_suffix : String → Bool
unfolding fits_digits
fits_suffix String.[] = false
fits_suffix (String.◌∷◌ c s) = (eqb (code c) b'-' || eqb (code c) b'_') && fits_letter s

-- `re.sub`: the leftmost place where the expression fits, to the end.
unfoldable pub strip_quantization : String → String
unfolding fits_suffix
strip_quantization String.[] = String.[]
strip_quantization (String.◌∷◌ c s) =
    let rest = strip_quantization s in
    if fits_suffix (String.◌∷◌ c s) then String.[] else String.◌∷◌ c rest

unfoldable pub normalize_model_name : String → String
unfolding basename strip_extension strip_quantization
normalize_model_name model_id = strip_quantization (strip_extension extensions (basename model_id))
