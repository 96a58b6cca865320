-- ===== src/Protocol/Tests.antt =====
-- The theorems on the protocol at small inputs.
use Prim.Native.String.{len}
use tmnotify.Base.{
  ◌==◌, zero, suc, ℕ, ◌-◌, ◌≡◌, ◌↔◌, refl, true, false, Option, none, some, List, [], ◌∷◌, ltb, ite,
  if◌then◌else◌, arith, ℕ_discrete,
}
use tmnotify.Base.Map.{insert, remove}
use tmnotify.Notification.Ingress.{byte_len}
use tmnotify.Notification.Draft
use tmnotify.Notification.Plain.{
  normalize_required, normalize_bounded, normalize_plain_text, normalize_loop, normalize_char,
  is_display_control,
}
use tmnotify.Notification.Source.{
  toast, info, normal, Timeout, overrides_default, metadata_default, notification_key,
  Text-discrete,
}
use tmnotify.Notification.Draft.{NotificationDraft, draft_new}
use tmnotify.Protocol.Error.{ok}
use tmnotify.Protocol.Frames.{decoder_new, push, max_request_bytes}
use tmnotify.Protocol.Frames.Bytewise.{read, push-read}
use tmnotify.Protocol.Frames.Stream.{push_all, join, as_one, push_calls, push_calls-push}
use tmnotify.Protocol.Frames.Lines.{lines, IsSplit, push_all-lines, push-IsSplit}
use tmnotify.Protocol.Request.{
  RequestEnvelope, RequestKind, Json, kind_name, envelope_decode, parse_kind, parse_among,
}
use tmnotify.Protocol.Request.Decode.{IsEnvelope, envelope_decode_iff}
use tmnotify.Protocol.Request.Command.{
  ClientRequest, ClientCommand, from_envelope, IsAccepted, from_envelope_iff, matches,
  RequestKind-discrete, validate,
}
use tmnotify.Protocol.Cache.{
  miss, replay, payload_mismatch, RequestResultCache, cache_new, cache_insert, cache_lookup,
  insert_fresh, cache_expire, expire_loop, touch, remove_first, evict,
}
use tmnotify.Protocol.Cache.Inserted.{Inserted, cache_new-Inv, cache_insert-Inserted}
use tmnotify.Protocol.Cache.Replay.{cache_lookup-cache_insert}
use tmnotify.Protocol.Wire.{
  WireNotificationDraft, draft_into_domain, draft_from_domain, wire_timeout, metadata_into_domain,
}
use tmnotify.Protocol.Wire.Valid.{IsDraft, draft_into_domain-IsDraft}
use tmnotify.Protocol.Wire.RoundTrip.{draft_into_domain-draft_from_domain}
use tmnotify.Protocol.Renderer.{
  Codec, RendererMessage, terminate, dismissed, RendererWireFrame, message_encode_line,
  message_decode,
}
use tmnotify.Protocol.Renderer.Line.{IsCodec, message_decode-message_encode_line}

-- "ab\ncd"
abbrev two : List ℕ
two = 97 ∷ 98 ∷ 10 ∷ 99 ∷ 100 ∷ []

push-read_example : push (decoder_new 3) two ≡ read (decoder_new 3) two
push-read_example = push-read (decoder_new 3) two (ground arith)

abbrev chunks : List (List ℕ)
chunks = (97 ∷ []) ∷ (98 ∷ 10 ∷ 99 ∷ []) ∷ (100 ∷ []) ∷ []

-- A frame, and then a line that is too long
abbrev broken : List (List ℕ)
broken = (97 ∷ 98 ∷ 10 ∷ []) ∷ (99 ∷ 100 ∷ 101 ∷ 102 ∷ []) ∷ (103 ∷ []) ∷ []

push_calls-push_example :
    push (decoder_new 3) (join broken) ≡ as_one (push_calls (decoder_new 3) broken)
push_calls-push_example = push_calls-push (decoder_new 3) broken (ground arith)

push_all-lines_example :
    push_all (decoder_new 3) chunks
    ≡ (ok ((97 ∷ 98 ∷ []) ∷ []), record { buffer = 99 ∷ 100 ∷ []; max_frame_bytes = 3 })
unfolding lines join
push_all-lines_example =
    push_all-lines 3 ((97 ∷ 98 ∷ []) ∷ []) (99 ∷ 100 ∷ []) chunks
      (((refl, (refl, tt)), ground arith), tt) ((refl, (refl, tt)), ground arith) refl

push-IsSplit_example : IsSplit (decoder_new 3) two (push (decoder_new 3) two)
push-IsSplit_example = push-IsSplit (decoder_new 3) two (tt, ground arith)

-- A cache of two entries that live ten nanoseconds
abbrev cache : RequestResultCache ℕ ℕ
cache = cache_new 2 10

abbrev request : ℕ → RequestEnvelope ℕ
request value = record { request_id = 7; kind = RequestKind.dismiss; value = value }

cache_insert-Inserted_example :
    (c' : RequestResultCache ℕ ℕ) × (cache_insert (request 5) 1 3 cache ≡ some c')
    × Inserted (request 5) 1 3 (cache_expire 3 cache) c'
cache_insert-Inserted_example =
    cache_insert-Inserted (request 5) 1 3 cache (cache_new-Inv 2 10 3 (ground arith))

abbrev filled : RequestResultCache ℕ ℕ
filled = record cache {
  entries = (7, record { payload = 5; response = 1; touched_at = 3 }) ∷ [];
  order = 7 ∷ [];
}

cache_lookup-cache_insert_example :
    (cache_lookup ℕ_discrete (request 5) 8 filled).0
    ≡ (if ltb (8 - 3) 10 then ite (ℕ_discrete 5 5) (replay 1) payload_mismatch else miss)
unfolding cache_insert insert_fresh cache_expire expire_loop touch remove_first insert remove evict
    ℕ_discrete
cache_lookup-cache_insert_example =
    cache_lookup-cache_insert ℕ_discrete (request 5) (request 5) 1 3 8 cache filled
      (cache_new-Inv 2 10 3 (ground arith)) refl refl (ground arith)

abbrev wire : WireNotificationDraft
wire = record {
  key = some (75 ∷ []);
  level = info;
  priority = normal;
  presentation = toast;
  title = 65 ∷ 9 ∷ [];
  body = [];
  timeout_ms = some 1500;
  source = none;
  position = none;
  metadata = record { agent_event_kind = none; agent_name = none; tool_name = none };
}

abbrev draft : NotificationDraft
draft = record {
  key = some (75 ∷ []);
  level = info;
  priority = normal;
  presentation = toast;
  title = 65 ∷ 32 ∷ 32 ∷ 32 ∷ 32 ∷ [];
  body = [];
  timeout = Timeout.after 1500000000;
  source = none;
  overrides = overrides_default;
  metadata = metadata_default;
}

draft_into_domain-IsDraft_example : IsDraft draft
unfolding draft_into_domain draft_new Draft.with_timeout wire_timeout notification_key
    normalize_required normalize_bounded normalize_plain_text normalize_loop normalize_char
    is_display_control byte_len metadata_into_domain
draft_into_domain-IsDraft_example = draft_into_domain-IsDraft wire {d = draft} (ground arith) refl

draft_into_domain-draft_from_domain_example : draft_into_domain (draft_from_domain draft) ≡ ok draft
draft_into_domain-draft_from_domain_example =
    draft_into_domain-draft_from_domain draft draft_into_domain-IsDraft_example

-- A toy JSON library: one object, whose frame is one byte.
data Doc : Type 0 where
  object : Doc
  one : Doc
  text : List ℕ → Doc

field_of : ℕ → Option Doc
field_of n =
    if n == 7
    then some one
    else if n == 10
    then some (text [])
    else if n == 4
    then some (text (kind_name RequestKind.history))
    else none

json : Json Doc
json = record {
  from_slice = λ bytes. some object;
  is_object = λ v. true;
  get = λ v name. field_of (len name);
  as_u64 = λ v. some 1;
  as_str = λ v. elim v [ text t ↦ some t | _ ↦ none ];
  parse_uuid = λ t. some 9;
}

abbrev history_envelope : RequestEnvelope Doc
history_envelope = record { request_id = 9; kind = RequestKind.history; value = object }

envelope_decode_iff_example :
    (envelope_decode json (123 ∷ []) ≡ ok history_envelope)
    ↔ IsEnvelope json (123 ∷ []) history_envelope
envelope_decode_iff_example = envelope_decode_iff json (123 ∷ []) history_envelope

history_decodes : envelope_decode json (123 ∷ []) ≡ ok history_envelope
unfolding envelope_decode parse_kind parse_among json field_of Text-discrete
history_decodes = refl

abbrev history_request : ClientRequest
history_request = record {
  version = 1;
  request_id = 9;
  command = ClientCommand.history false false 50;
}

history_accepted :
    from_envelope (λ t. none) (λ v. some history_request) history_envelope ≡ ok history_request
unfolding from_envelope matches RequestKind-discrete validate
history_accepted = refl

from_envelope_iff_example :
    (from_envelope (λ t. none) (λ v. some history_request) history_envelope ≡ ok history_request)
    ↔ ((some history_request ≡ some history_request)
        × IsAccepted (λ t. none) history_envelope history_request)
from_envelope_iff_example =
    from_envelope_iff (λ t. none) (λ v. some history_request) history_envelope history_request

-- A toy codec, which writes one message as one byte.
to_byte : ℕ → RendererMessage → Option (List ℕ)
to_byte (suc zero) (terminate dismissed) = some (65 ∷ [])
to_byte version message = none

codec : Codec RendererWireFrame
codec = record {
  to_vec = λ f. to_byte f.version f.message;
  from_slice = λ bytes. some (record { version = 1; message = terminate dismissed });
}

to_byte_lem :
    (version : ℕ) (message : RendererMessage) {bytes : List ℕ}
    → to_byte version message ≡ some bytes
    → (bytes ≡ 65 ∷ []) × (version ≡ 1) × (message ≡ terminate dismissed)
unfolding to_byte
to_byte_lem (suc zero) (terminate dismissed) h = (cc h, refl, refl)
to_byte_lem version message h = absurd (ground arith)

codec-IsCodec : IsCodec codec
unfolding codec
codec-IsCodec = record {
  back = λ f bytes e. let l = to_byte_lem f.version f.message e in rw (l.1, l.2);
  one_line = λ f bytes e. let l = to_byte_lem f.version f.message e in rw l.0 (refl, tt);
}

message_decode-message_encode_line_example :
    (frame : List ℕ) × (push_all (decoder_new max_request_bytes) ((65 ∷ []) ∷ (10 ∷ []) ∷ [])
      ≡ (ok (frame ∷ []), decoder_new max_request_bytes))
    × (message_decode codec frame ≡ ok (terminate dismissed))
unfolding message_encode_line codec to_byte join
message_decode-message_encode_line_example =
    message_decode-message_encode_line codec (terminate dismissed) (65 ∷ 10 ∷ [])
      ((65 ∷ []) ∷ (10 ∷ []) ∷ []) codec-IsCodec refl refl
