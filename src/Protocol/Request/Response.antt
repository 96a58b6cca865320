-- ===== src/Protocol/Request/Response.antt =====
-- src/protocol.rs: `decode_client_response`, what a client makes of the answer's frame.
use tmnotify.Base.{ℕ, ◌≤◌, ◌≡◌, ap, ◌∙◌, Option, none, some, leb, ◌==◌, length}
use tmnotify.Notification.Ingress.{Text}
use tmnotify.Protocol.Error.{
  Result, ok, err, ◌>>=◌, response_too_large, malformed_json, response_must_be_object,
  missing_or_invalid_field, unsupported_version, response_request_mismatch, invalid_response_shape,
}
use tmnotify.Protocol.Frames.{Bytes, max_request_bytes}
use tmnotify.Protocol.Request.{protocol_version, Json, ok_or, ensure, version_of, request_id_of}
use tmnotify.Protocol.Wire.Steps.{bind_ok}
use tmnotify.Protocol.Request.Decode.{ok_or-some, within_limit, equal}

pub data ClientResponse (Value : Type 0) : Type 0 where
  success : Value → ClientResponse Value
  error : Text → ClientResponse Value

module _ {Value : Type 0} (json : Json Value) where
  -- The `match` on the result and the error.
  abbrev pub shaped : Option Value → Option Value → Result (ClientResponse Value)
  shaped (some result) none = ok (success result)
  shaped none (some e) =
      ok_or (json.as_str e) (missing_or_invalid_field "error") >>= λ t. ok (error t)
  shaped (some result) (some e) = err invalid_response_shape
  shaped none none = err invalid_response_shape

  unfoldable pub decode_client_response : Bytes → ℕ → Result (ClientResponse Value)
  decode_client_response frame expected = do
    size ← ensure (leb (length frame) max_request_bytes) (response_too_large max_request_bytes)
    value ← ok_or (json.from_slice frame) malformed_json
    object ← ensure (json.is_object value) response_must_be_object
    version ← ok_or (version_of json value) (missing_or_invalid_field "version")
    known ← ensure (version == protocol_version) (unsupported_version version)
    request_id ← ok_or (request_id_of json value) (missing_or_invalid_field "request_id")
    same ← ensure (request_id == expected) (response_request_mismatch expected request_id)
    shaped (json.get value "result") (json.get value "error")

-- An answer that is accepted is within the limit and of the protocol's version, has the expected
-- id, and has either a result and no error, or an error's text and no result.
pub record IsResponse {Value : Type 0} (json : Json Value) (frame : Bytes) (expected : ℕ)
    (r : ClientResponse Value) : Type 0 where
  pub value : Value
  pub size : length frame ≤ max_request_bytes
  pub parsed : json.from_slice frame ≡ some value
  pub version : version_of json value ≡ some protocol_version
  pub identified : request_id_of json value ≡ some expected
  pub shape : shaped json (json.get value "result") (json.get value "error") ≡ ok r

-- An answer that `decode_client_response` accepts is a frame within the limit, of the protocol's
-- version and with the expected id; what it says is the result where there is no error, or the
-- text of the error where there is no result.
pub decode_client_response-IsResponse :
    {Value : Type 0} (json : Json Value) (frame : Bytes) (expected : ℕ) {r : ClientResponse Value}
    → decode_client_response json frame expected ≡ ok r
    → IsResponse json frame expected r
unfolding decode_client_response
decode_client_response-IsResponse json frame expected {r} h =
    let (_, size, h1) =
      bind_ok (ensure (leb (length frame) max_request_bytes) (response_too_large max_request_bytes))
        _ h in
    let (value, parsed, h2) = bind_ok (ok_or (json.from_slice frame) malformed_json) _ h1 in
    let (_, _, h3) = bind_ok (ensure (json.is_object value) response_must_be_object) _ h2 in
    let (version, given, h4) =
      bind_ok (ok_or (version_of json value) (missing_or_invalid_field "version")) _ h3 in
    let (_, known, h5) =
      bind_ok (ensure (version == protocol_version) (unsupported_version version)) _ h4 in
    let (id, identified, h6) =
      bind_ok (ok_or (request_id_of json value) (missing_or_invalid_field "request_id")) _ h5 in
    let (_, same, h7) =
      bind_ok (ensure (id == expected) (response_request_mismatch expected id)) _ h6 in
    record {
      value = value;
      size = within_limit frame (response_too_large max_request_bytes) size;
      parsed = ok_or-some (json.from_slice frame) malformed_json parsed;
      version =
          ok_or-some (version_of json value) (missing_or_invalid_field "version") given
          ∙ ap some (equal version protocol_version (unsupported_version version) known);
      identified =
          ok_or-some (request_id_of json value) (missing_or_invalid_field "request_id") identified
          ∙ ap some (equal id expected (response_request_mismatch expected id) same);
      shape = h7;
    }
