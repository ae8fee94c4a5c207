-- ===== src/Journey/Headers.antt =====
-- The headers of a request to the LLM, as forward_request of connector/llm_client.py makes them, and
-- an independent reading of them.
use Prim.Native.String.{◌++◌ as append}
use mathlib.Core.List.{append-nil}
use remote_llmconnector.Shared.{
  lookup-insert, eq_iff, arith, ◌||◌, ℕ, String, Option, none, some, List, [], ◌∷◌, ◌++◌, ◌≡◌, ◌∙◌,
  refl, ap, sym, truthy, Dict, lookup, insert, insert_fresh, is_lower, if◌then◌else◌, Bool-cases,
  inl, inr,
}
use remote_llmconnector.BrokerApi.Responses.{HttpRequest}
use remote_llmconnector.BrokerApi.Chat.{content_type_or_json}
use remote_llmconnector.ConnectorService.LlmClient.{
  LlmRequest, outgoing_request, keep_headers, set_host, set_key,
}
use remote_llmconnector.ConnectorService.Requests.{Service, key_or}

-- The headers of the LLM's request, written out: the content type, the configured Host, and the key of
-- the route or else the connector's own. An empty text counts as absent.
abbrev pub host_part : Option String → Dict String
host_part none = []
host_part (some host) = if truthy host then ("Host", host) ∷ [] else []

abbrev pub own_key_part : Option String → Dict String
own_key_part none = []
own_key_part (some key) = if truthy key then ("Authorization", append "Bearer " key) ∷ [] else []

abbrev pub key_part : Option String → Option String → Dict String
key_part none own = own_key_part own
key_part (some key) own =
    if truthy key then ("Authorization", append "Bearer " key) ∷ [] else own_key_part own

abbrev pub expected_headers : HttpRequest → Option String → Service → Dict String
expected_headers request key s =
    ("content-type", content_type_or_json request.content_type)
    ∷ (host_part s.llm_client.host_header ++ key_part key s.llm_api_key)

-- What the LLM is asked for a request of the HTTP API.
abbrev pub expected_request : HttpRequest → Option String → Service → LlmRequest
expected_request request key s = record {
  method = request.method;
  url = append s.llm_client.base_url request.path;
  headers = expected_headers request key s;
  body = some request.body;
}

set_own_key_lem :
    (d : Dict String) (own : Option String)
    → lookup "Authorization" d ≡ none
    → set_key own d ≡ d ++ own_key_part own
set_own_key_lem d none h = sym (append-nil d)
set_own_key_lem d (some own) h = elim (Bool-cases (truthy own)) [
  | inl x ↦ rw x (insert_fresh "Authorization" (append "Bearer " own) d h)
  | inr x ↦ rw x (sym (append-nil d))
]

set_key_lem :
    (d : Dict String) (key own : Option String)
    → lookup "Authorization" d ≡ none
    → set_key (key_or key own) d ≡ d ++ key_part key own
set_key_lem d none own h = set_own_key_lem d own h
set_key_lem d (some key) own h = elim (Bool-cases (truthy key)) [
  | inl x ↦ rw x (rw x (insert_fresh "Authorization" (append "Bearer " key) d h))
  | inr x ↦ rw x (set_own_key_lem d own h)
]

-- What is kept and set of headers that are a content type alone.
pub headers_lem :
    (t : String) (host key own : Option String)
    → set_key (key_or key own) (set_host host (keep_headers (("content-type", t) ∷ [])))
      ≡ ("content-type", t) ∷ (host_part host ++ key_part key own)
unfolding keep_headers is_lower lookup insert
headers_lem t none key own = set_key_lem (("content-type", t) ∷ []) key own refl
headers_lem t (some host) key own = elim (Bool-cases (truthy host)) [
  | inl x ↦ rw x (set_key_lem (("content-type", t) ∷ ("Host", host) ∷ []) key own refl)
  | inr x ↦ rw x (set_key_lem (("content-type", t) ∷ []) key own refl)
]

-- The value of a header, by its exact name, in a request that goes to the LLM, for a message that
-- carries `carried`: what the connector sets, or else what the message carries, unless it is withheld.
abbrev or_else : Option String → Option String → Option String
or_else none b = b
or_else (some a) b = some a

abbrev forwarded : String → Dict String → Option String
forwarded name carried =
    if is_lower name "host" || is_lower name "connection" || is_lower name "authorization"
    then none
    else lookup name carried

abbrev pub expected_value : String → Dict String → Option String → Service → Option String
expected_value name carried key s =
    or_else (lookup name (key_part key s.llm_api_key))
      (or_else (lookup name (host_part s.llm_client.host_header)) (forwarded name carried))

lookup-keep_headers :
    (name : String) (d : Dict String) → lookup name (keep_headers d) ≡ forwarded name d
unfolding keep_headers lookup
lookup-keep_headers name [] = ground arith
lookup-keep_headers name ((k, v) ∷ d) = ground (arith, lookup-keep_headers name d, eq_iff k name)

lookup-set_host :
    (name : String) (host : Option String) (d : Dict String)
    → lookup name (set_host host d) ≡ or_else (lookup name (host_part host)) (lookup name d)
unfolding lookup
lookup-set_host name none d = refl
lookup-set_host name (some host) d = ground (arith, lookup-insert "Host" name host d)

lookup-set_key :
    (name : String) (key own : Option String) (d : Dict String)
    → lookup name (set_key (key_or key own) d)
      ≡ or_else (lookup name (key_part key own)) (lookup name d)
unfolding lookup
lookup-set_key name none none d = refl
lookup-set_key name none (some own) d =
    ground (arith, lookup-insert "Authorization" name (append "Bearer " own) d)
lookup-set_key name (some key) none d =
    ground (arith, lookup-insert "Authorization" name (append "Bearer " key) d)
lookup-set_key name (some key) (some own) d = ground (
  arith,
  lookup-insert "Authorization" name (append "Bearer " key) d,
  lookup-insert "Authorization" name (append "Bearer " own) d,
)

pub lookup-outgoing_request :
    (s : Service) (method path : String) (carried : Dict String) (body : Option (List ℕ))
    (key : Option String) (name : String)
    → lookup name
        (outgoing_request s.llm_client method path carried body (key_or key s.llm_api_key)).headers
      ≡ expected_value name carried key s
unfolding outgoing_request
lookup-outgoing_request s method path carried body key name =
    let host = s.llm_client.host_header in
    let part = lookup name (key_part key s.llm_api_key) in
    lookup-set_key name key s.llm_api_key (set_host host (keep_headers carried))
    ∙ ap (or_else part) (lookup-set_host name host (keep_headers carried))
    ∙ ap (λ x. or_else part (or_else (lookup name (host_part host)) x))
        (lookup-keep_headers name carried)
