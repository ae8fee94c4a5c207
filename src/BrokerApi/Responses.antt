-- ===== src/BrokerApi/Responses.antt =====
-- broker/api.py, `create_error_response`, and the parts of shared/models.py that it uses; and what
-- the API takes from other packages: base64, JSON and the content types that a response may have.
use remote_llmconnector.Shared.{Dict, Value, ℕ, String, Bool, Option, none, List, []}

pub record ErrorDetail : Type 0 where
  pub message : String
  pub type : String
  pub code : Option String

-- One entry of the model list.
pub record ModelEntry : Type 0 where
  pub id : String
  pub created : ℕ
  pub owned_by : String

pub data Body : Type 0 where
  error_body : ErrorDetail → Body
  raw_body : List ℕ → Body
  model_list : List ModelEntry → Body

pub record HttpResponse : Type 0 where
  pub status : ℕ
  pub content_type : String
  pub headers : Dict String
  pub body : Body

unfoldable pub create_error_response : ℕ → String → String → Option String → HttpResponse
create_error_response status message error_type code = record {
  status = status;
  content_type = "application/json";
  headers = [];
  body = error_body (record { message = message; type = error_type; code = code });
}

-- base64 to and from text, `json.loads` of an object (`none` where it raises or gives something
-- else), whether `web.Response` accepts a content type, and how `str` writes a value that is no text
-- (`none` where the value cannot be a dict's key), and `int` of a text (`none` where it raises).
pub record Codec : Type 0 where
  pub encode : List ℕ → String
  pub decode : String → Option (List ℕ)
  pub loads : List ℕ → Option (Dict Value)
  pub accepts_type : String → Bool
  pub key_text : Value → Option String
  pub int_of : String → Option ℕ

pub record HttpRequest : Type 0 where
  pub authorization : Option String
  pub method : String
  pub path : String
  pub content_type : String
  pub body : List ℕ

abbrev pub internal_error : HttpResponse
internal_error = record {
  status = 500;
  content_type = "application/json";
  headers = [];
  body =
      error_body
        (record { message = "Internal server error"; type = "internal_error"; code = none });
}
