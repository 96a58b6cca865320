-- ===== src/Protocol/Request/Decode.antt =====
-- What `RequestEnvelope::decode` lets through.
use Prim.Native.Char.{code}
use Prim.Native.String.{String}
use tmnotify.Base.{
  ℕ, ◌≤◌, ◌≡◌, refl, subst, ap, ◌∙◌, ite, Bool, true, false, Option, none, some, List, [], ◌∷◌, leb,
  ◌==◌, length, arith, ◌↔◌, ℕ_discrete,
}
use tmnotify.Notification.Ingress.{Text}
use tmnotify.Notification.Source.{Text-discrete}
use tmnotify.Protocol.Error.{
  ProtocolError, ok, frame_too_large, malformed_json, request_must_be_object,
  missing_or_invalid_field, unsupported_version, unknown_request_type,
}
use tmnotify.Protocol.Frames.{Bytes, max_request_bytes}
use tmnotify.Protocol.Wire.Steps.{bind_ok}
use tmnotify.Protocol.Request.{
  protocol_version, RequestKind, send, update, dismiss, jump, history, history_guard, history_jump,
  history_clear, config_reload, renderer_redeem, kind_name, parse_among, request_kinds, parse_kind,
  RequestEnvelope, Json, ok_or, ensure, text_field, version_of, request_id_of, envelope_decode,
}

pub ok_or-some {ℓ} :
    {A : Type ℓ} (o : Option A) (e : ProtocolError) {a : A} → ok_or o e ≡ ok a → o ≡ some a
ok_or-some none e h = absurd (ground arith)
ok_or-some (some a) e h = cc h

pub ensure-true : (b : Bool) (e : ProtocolError) {u : Unit {0}} → ensure b e ≡ ok u → b ≡ true
ensure-true true e h = refl
ensure-true false e h = absurd (ground arith)

parse_among_name :
    (ks : List RequestKind) (t : Text) {k : RequestKind}
    → parse_among ks t ≡ some k
    → t ≡ kind_name k
unfolding parse_among
parse_among_name [] t h = absurd (ground arith)
parse_among_name (j ∷ ks) t {k} h =
    elim (Text-discrete t (kind_name j))
        as (λ d. ite d (some j) (parse_among ks t) ≡ some k → t ≡ kind_name k) [
          | yes p ↦ λ e. let q : j ≡ k = cc e in p ∙ ap kind_name q
          | no p ↦ λ e. parse_among_name ks t e
        ]
      h

-- The names of the protocol
abbrev pub spelled : RequestKind → String
spelled send = "send"
spelled update = "update"
spelled dismiss = "dismiss"
spelled jump = "jump"
spelled history = "history"
spelled history_guard = "history-guard"
spelled history_jump = "history-jump"
spelled history_clear = "history-clear"
spelled config_reload = "config-reload"
spelled renderer_redeem = "renderer-redeem"

-- The code points of a name
abbrev pub codes : String → Text
codes String.[] = []
codes (String.◌∷◌ c s) = code c ∷ codes s

kind_name-spelled : (k : RequestKind) → kind_name k ≡ codes (spelled k)
kind_name-spelled send = refl
kind_name-spelled update = refl
kind_name-spelled dismiss = refl
kind_name-spelled jump = refl
kind_name-spelled history = refl
kind_name-spelled history_guard = refl
kind_name-spelled history_jump = refl
kind_name-spelled history_clear = refl
kind_name-spelled config_reload = refl
kind_name-spelled renderer_redeem = refl

parse_kind-spelled : (k : RequestKind) → parse_kind (codes (spelled k)) ≡ some k
unfolding parse_kind parse_among Text-discrete ℕ_discrete
parse_kind-spelled send = refl
parse_kind-spelled update = refl
parse_kind-spelled dismiss = refl
parse_kind-spelled jump = refl
parse_kind-spelled history = refl
parse_kind-spelled history_guard = refl
parse_kind-spelled history_jump = refl
parse_kind-spelled history_clear = refl
parse_kind-spelled config_reload = refl
parse_kind-spelled renderer_redeem = refl

pub parse_kind_name : (t : Text) {k : RequestKind} → parse_kind t ≡ some k → t ≡ kind_name k
unfolding parse_kind
parse_kind_name t h = parse_among_name request_kinds t h

pub within_limit :
    (frame : Bytes) (e : ProtocolError) {u : Unit {0}}
    → ensure (leb (length frame) max_request_bytes) e ≡ ok u
    → length frame ≤ max_request_bytes
within_limit frame e h =
    let within = ensure-true (leb (length frame) max_request_bytes) e h in ground (arith, within)

pub equal : (a b : ℕ) (e : ProtocolError) {u : Unit {0}} → ensure (a == b) e ≡ ok u → a ≡ b
equal a b e h = let same = ensure-true (a == b) e h in ground (arith, same)

-- An envelope of a frame: the frame is within the limit and is a JSON object of the protocol's version,
-- with the id of the envelope and the name of its kind, and the envelope has the object.
pub record IsEnvelope {Value : Type 0} (json : Json Value) (frame : Bytes)
    (e : RequestEnvelope Value) : Type 0 where
  pub size : length frame ≤ max_request_bytes
  pub parsed : json.from_slice frame ≡ some e.value
  pub object : json.is_object e.value ≡ true
  pub version : version_of json e.value ≡ some protocol_version
  pub identified : request_id_of json e.value ≡ some e.request_id
  pub named : text_field json e.value "type" ≡ some (codes (spelled e.kind))

envelope_decode-IsEnvelope :
    {Value : Type 0} (json : Json Value) (frame : Bytes) {e : RequestEnvelope Value}
    → envelope_decode json frame ≡ ok e
    → IsEnvelope json frame e
unfolding envelope_decode
envelope_decode-IsEnvelope {Value} json frame {e} h =
    let (_, size, h1) =
      bind_ok (ensure (leb (length frame) max_request_bytes) (frame_too_large max_request_bytes)) _
        h in
    let (value, parsed, h2) = bind_ok (ok_or (json.from_slice frame) malformed_json) _ h1 in
    let (_, object, h3) = bind_ok (ensure (json.is_object value) request_must_be_object) _ h2 in
    let (version, given, h4) =
      bind_ok (ok_or (version_of json value) (missing_or_invalid_field "version")) _ h3 in
    let (_, known, h5) =
      bind_ok (ensure (version == protocol_version) (unsupported_version version)) _ h4 in
    let (id, identified, h6) =
      bind_ok (ok_or (request_id_of json value) (missing_or_invalid_field "request_id")) _ h5 in
    let (type, named, h7) =
      bind_ok (ok_or (text_field json value "type") (missing_or_invalid_field "type")) _ h6 in
    let (kind, parses, h8) = bind_ok (ok_or (parse_kind type) (unknown_request_type type)) _ h7 in
    let new : RequestEnvelope Value = record { request_id = id; kind = kind; value = value } in
    let q : new ≡ e = cc h8 in
    subst (IsEnvelope json frame) q (record {
      size = within_limit frame (frame_too_large max_request_bytes) size;
      parsed = ok_or-some (json.from_slice frame) malformed_json parsed;
      object = ensure-true (json.is_object value) request_must_be_object object;
      version =
          ok_or-some (version_of json value) (missing_or_invalid_field "version") given
          ∙ ap some (equal version protocol_version (unsupported_version version) known);
      identified =
          ok_or-some (request_id_of json value) (missing_or_invalid_field "request_id") identified;
      named =
          ok_or-some (text_field json value "type") (missing_or_invalid_field "type") named
          ∙ ap some (
              parse_kind_name type (ok_or-some (parse_kind type) (unknown_request_type type) parses)
              ∙ kind_name-spelled kind);
    })

IsEnvelope-decodes :
    {Value : Type 0} (json : Json Value) (frame : Bytes) (e : RequestEnvelope Value)
    → IsEnvelope json frame e
    → envelope_decode json frame ≡ ok e
unfolding envelope_decode
IsEnvelope-decodes json frame e h =
    let size : leb (length frame) max_request_bytes ≡ true = ground (arith, h.size) in
    rw (size, h.parsed, h.object, h.version, h.identified, h.named, parse_kind-spelled e.kind) refl

-- `RequestEnvelope::decode` returns an envelope exactly if the frame is within the limit and
-- parses to the value of the envelope, and that is a JSON object with the protocol's version, the
-- request id of the envelope, and as its type the name that the protocol has for the kind of the
-- envelope.
pub envelope_decode_iff :
    {Value : Type 0} (json : Json Value) (frame : Bytes) (e : RequestEnvelope Value)
    → (envelope_decode json frame ≡ ok e) ↔ IsEnvelope json frame e
envelope_decode_iff json frame e =
    (envelope_decode-IsEnvelope json frame, IsEnvelope-decodes json frame e)
