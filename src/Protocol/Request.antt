-- ===== src/Protocol/Request.antt =====
-- src/protocol.rs: the kinds of request, and the envelope of one. `Value` is a JSON value.
pub mod Decode
pub mod Command
pub mod Redemption
pub mod Response
use Prim.Native.String.{String}
use tmnotify.Base.{
  ℕ, ◌*◌, Bool, true, false, ◌&&◌, ◌||◌, not, Option, none, some, List, [], ◌∷◌, ltb, leb, ◌==◌,
  if◌then◌else◌, ite, length,
}
use tmnotify.Notification.Ingress.{Text, byte_len}
use tmnotify.Notification.Source.{Text-discrete}
use tmnotify.Notification.Plain.{is_empty, within, is_ascii_digit}
use tmnotify.Notification.Record.{eq}
use tmnotify.Protocol.Error.{
  ProtocolError, Result, ok, err, ◌>>=◌, frame_too_large, response_too_large, malformed_json,
  request_must_be_object, response_must_be_object, missing_or_invalid_field, unsupported_version,
  unknown_request_type, response_request_mismatch, invalid_response_shape, unexpected_request_type,
}
use tmnotify.Protocol.Frames.{Bytes, max_request_bytes}

abbrev pub protocol_version : ℕ
protocol_version = 1

pub data RequestKind : Type 0 where
  send update dismiss jump history history_guard history_jump history_clear config_reload
        renderer_redeem :
      RequestKind

-- The names that `RequestKind::parse` knows.
abbrev pub kind_name : RequestKind → Text
kind_name send = b's' ∷ b'e' ∷ b'n' ∷ b'd' ∷ []
kind_name update = b'u' ∷ b'p' ∷ b'd' ∷ b'a' ∷ b't' ∷ b'e' ∷ []
kind_name dismiss = b'd' ∷ b'i' ∷ b's' ∷ b'm' ∷ b'i' ∷ b's' ∷ b's' ∷ []
kind_name jump = b'j' ∷ b'u' ∷ b'm' ∷ b'p' ∷ []
kind_name history = b'h' ∷ b'i' ∷ b's' ∷ b't' ∷ b'o' ∷ b'r' ∷ b'y' ∷ []
kind_name history_guard =
    b'h' ∷ b'i' ∷ b's' ∷ b't' ∷ b'o' ∷ b'r' ∷ b'y' ∷ b'-' ∷ b'g' ∷ b'u' ∷ b'a' ∷ b'r' ∷ b'd' ∷ []
kind_name history_jump =
    b'h' ∷ b'i' ∷ b's' ∷ b't' ∷ b'o' ∷ b'r' ∷ b'y' ∷ b'-' ∷ b'j' ∷ b'u' ∷ b'm' ∷ b'p' ∷ []
kind_name history_clear =
    b'h' ∷ b'i' ∷ b's' ∷ b't' ∷ b'o' ∷ b'r' ∷ b'y' ∷ b'-' ∷ b'c' ∷ b'l' ∷ b'e' ∷ b'a' ∷ b'r' ∷ []
kind_name config_reload =
    b'c' ∷ b'o' ∷ b'n' ∷ b'f' ∷ b'i' ∷ b'g' ∷ b'-' ∷ b'r' ∷ b'e' ∷ b'l' ∷ b'o' ∷ b'a' ∷ b'd' ∷ []
kind_name renderer_redeem =
    b'r' ∷ b'e' ∷ b'n' ∷ b'd' ∷ b'e' ∷ b'r' ∷ b'e' ∷ b'r' ∷ b'-' ∷ b'r' ∷ b'e' ∷ b'd' ∷ b'e' ∷ b'e'
    ∷ b'm' ∷ []

-- The arms of a `match` on a text, from the first one.
unfoldable pub parse_among : List RequestKind → Text → Option RequestKind
parse_among [] value = none
parse_among (k ∷ ks) value =
    let rest = parse_among ks value in ite (Text-discrete value (kind_name k)) (some k) rest

abbrev pub request_kinds : List RequestKind
request_kinds =
    send ∷ update ∷ dismiss ∷ jump ∷ history ∷ history_guard ∷ history_jump ∷ history_clear
    ∷ config_reload ∷ renderer_redeem ∷ []

-- `RequestKind::parse`
unfoldable pub parse_kind : Text → Option RequestKind
parse_kind value = parse_among request_kinds value

-- A `Uuid` is its 128-bit number.
pub record RequestEnvelope (Value : Type 0) : Type 0 where
  pub request_id : ℕ
  pub kind : RequestKind
  pub value : Value

-- What the code takes of the libraries for JSON and for UUIDs.
pub record Json (Value : Type 0) : Type 0 where
  -- serde_json::from_slice
  pub from_slice : Bytes → Option Value
  -- Value::is_object
  pub is_object : Value → Bool
  -- Value::get, which is `None` for a value that is not an object
  pub get : Value → String → Option Value
  pub as_u64 : Value → Option ℕ
  pub as_str : Value → Option Text
  -- Uuid::from_str
  pub parse_uuid : Text → Option ℕ

-- `option.ok_or(error)`
abbrev pub ok_or {ℓ} : {A : Type ℓ} → Option A → ProtocolError → Result A
ok_or none e = err e
ok_or (some a) e = ok a

abbrev pub and_then {ℓ κ} : {A : Type ℓ} {B : Type κ} → Option A → (A → Option B) → Option B
and_then none f = none
and_then (some a) f = f a

abbrev pub ensure : Bool → ProtocolError → Result (Unit {0})
ensure true e = ok tt
ensure false e = err e

module _ {Value : Type 0} (json : Json Value) where
  -- `value.get(name).and_then(Value::as_str)`
  abbrev pub text_field : Value → String → Option Text
  text_field value name = and_then (json.get value name) json.as_str

  abbrev pub version_of : Value → Option ℕ
  version_of value = and_then (json.get value "version") json.as_u64

  abbrev pub request_id_of : Value → Option ℕ
  request_id_of value = and_then (text_field value "request_id") json.parse_uuid

  -- `RequestEnvelope::decode`
  unfoldable pub envelope_decode : Bytes → Result (RequestEnvelope Value)
  envelope_decode frame = do
    size ← ensure (leb (length frame) max_request_bytes) (frame_too_large max_request_bytes)
    value ← ok_or (json.from_slice frame) malformed_json
    object ← ensure (json.is_object value) request_must_be_object
    version ← ok_or (version_of value) (missing_or_invalid_field "version")
    known ← ensure (version == protocol_version) (unsupported_version version)
    request_id ← ok_or (request_id_of value) (missing_or_invalid_field "request_id")
    request_type ← ok_or (text_field value "type") (missing_or_invalid_field "type")
    kind ← ok_or (parse_kind request_type) (unknown_request_type request_type)
    ok (record { request_id = request_id; kind = kind; value = value })
