-- ===== src/Protocol/Roundtrip.antt =====
-- What one side creates, the other side's validation reads back.
use remote_llmconnector.Shared.{Dict, lookup, String, Option, none, some, List, ◌≡◌, refl}
use remote_llmconnector.Protocol.{
  create_auth_message, create_request_message, create_pending_message, create_approved_message,
  create_revoked_message, validate_auth, validate_request, validate_pending, validate_approved,
  validate_revoked, text_or, list_or_nil,
}

-- The broker reads an AUTH message's token, name and models as the connector gave them; no list of
-- models is an empty one.
pub validate-create_auth :
    (i : String) (token : Option String) (models : Option (List String)) (name : Option String)
    → validate_auth (create_auth_message i token models name).payload
      ≡ some (record {
        token = token;
        name = name;
        connector_version = "1.0.0";
        models = list_or_nil models;
      })
unfolding validate_auth create_auth_message lookup
validate-create_auth i none models none = refl
validate-create_auth i none models (some n) = refl
validate-create_auth i (some t) models none = refl
validate-create_auth i (some t) models (some n) = refl

-- The connector reads a REQUEST message's fields as the broker gave them, the injected key included.
pub validate-create_request :
    (i method path : String) (headers : Dict String) (body : String) (key : Option String)
    → validate_request (create_request_message i method path headers body key).payload
      ≡ some (record {
        method = method;
        path = path;
        headers = headers;
        body = body;
        llm_api_key = key;
      })
unfolding validate_request create_request_message lookup
validate-create_request i method path headers body none = refl
validate-create_request i method path headers body (some k) = refl

-- The connector reads back the identity of a PENDING, the key of an APPROVED and the reason of a
-- REVOKED message; an absent or empty text of the first and third is read as the default.
pub validate-create_workflow :
    (i connector_id key : String) (message reason : Option String)
    → (validate_pending (create_pending_message i connector_id message).payload
        ≡ some (record {
          connector_id = connector_id;
          message = text_or message "Waiting for admin approval";
        }))
      × (validate_approved (create_approved_message i key).payload ≡ some key)
      × (validate_revoked (create_revoked_message i reason).payload
          ≡ some (text_or reason "API key revoked by admin"))
unfolding validate_pending create_pending_message validate_approved create_approved_message
    validate_revoked create_revoked_message lookup
validate-create_workflow i connector_id key message reason = (refl, refl, refl)
