-- ===== src/Protocol/Error.antt =====
-- src/protocol.rs: the errors. An error of the JSON library carries no content here.
use Prim.Native.String.{String}
use tmnotify.Base.{ℕ}
use tmnotify.Notification.Ingress.{Text, IngressError}
use tmnotify.Notification.Ingress

pub data ProtocolError : Type 0 where
  frame_too_large response_too_large : ℕ → ProtocolError
  malformed_json request_must_be_object response_must_be_object : ProtocolError
  missing_or_invalid_field : String → ProtocolError
  unsupported_version : ℕ → ProtocolError
  unknown_request_type : Text → ProtocolError
  invalid_payload encode_failed envelope_mismatch : ProtocolError
  response_request_mismatch : ℕ → ℕ → ProtocolError
  invalid_response_shape invalid_selector empty_update invalid_history_limit : ProtocolError
  incomplete_provider_source : ProtocolError
  ingress : IngressError → ProtocolError
  unexpected_request_type : ProtocolError

pub data Result {ℓ} (A : Type ℓ) : Type ℓ where
  ok : A → Result A
  err : ProtocolError → Result A

-- The operator `?`
infixl 5 ◌>>=◌
abbrev pub ◌>>=◌ {ℓ κ} : {A : Type ℓ} {B : Type κ} → Result A → (A → Result B) → Result B
err e >>= rest = err e
ok a >>= rest = rest a

-- `?` on a result of the Notification model, by the derived `From<IngressError>`
abbrev pub accept {ℓ} : {A : Type ℓ} → Ingress.Result A → Result A
accept (Ingress.ok a) = ok a
accept (Ingress.err e) = err (ingress e)
