-- ===== src/Protocol/Request/Command.antt =====
-- src/protocol.rs: `ClientCommand` and `ClientRequest`, the request of a client after its envelope.
use tmnotify.Base.{
  ℕ, ◌≤◌, ◌<◌, ◌≡◌, refl, ap, ◌∙◌, ◌↔◌, some, Bool, true, false, ◌&&◌, ◌||◌, not, ite, Option, ltb,
  ◌==◌, arith, subst,
}
use tmnotify.Notification.Ingress.{Text}
use tmnotify.Notification.Ingress
use tmnotify.Notification.Source.{NotificationKey, SourceContext, notification_key}
use tmnotify.Notification.Draft.{NotificationDraft}
use tmnotify.Notification.Update.{NotificationUpdate, is_empty}
use tmnotify.Notification.Record.{eq}
use tmnotify.Protocol.Error.{
  Result, ok, err, ◌>>=◌, accept, invalid_payload, envelope_mismatch, empty_update,
  invalid_history_limit,
}
use tmnotify.Protocol.Wire.{
  TargetSelector, WireNotificationDraft, WireNotificationUpdate, WireSelector, WireSourceContext,
  WireHistoryClear, draft_into_domain, update_into_domain, selector_into_domain, source_into_domain,
}
use tmnotify.Protocol.Wire.Steps.{bind_ok, accept_ok}
use tmnotify.Protocol.Request.Decode.{ensure-true, ok_or-some}
use tmnotify.Protocol.Request.{RequestKind, protocol_version, RequestEnvelope, ok_or, ensure}

pub data ClientCommand : Type 0 where
  send : WireNotificationDraft → ClientCommand
  update : WireSelector → WireNotificationUpdate → ClientCommand
  dismiss : WireSelector → ClientCommand
  jump : Text → ClientCommand
  -- include_hidden, all_servers, limit
  history : Bool → Bool → ℕ → ClientCommand
  history_guard : ClientCommand
  history_jump : WireSourceContext → ClientCommand
  -- selector, all_servers
  history_clear : WireHistoryClear → Bool → ClientCommand
  config_reload : ClientCommand

pub record ClientRequest : Type 0 where
  pub version : ℕ
  pub request_id : ℕ
  pub command : ClientCommand

-- `ClientCommand::kind`
abbrev pub command_kind : ClientCommand → RequestKind
command_kind (send n) = RequestKind.send
command_kind (update s u) = RequestKind.update
command_kind (dismiss s) = RequestKind.dismiss
command_kind (jump k) = RequestKind.jump
command_kind (history h a l) = RequestKind.history
command_kind history_guard = RequestKind.history_guard
command_kind (history_jump s) = RequestKind.history_jump
command_kind (history_clear s a) = RequestKind.history_clear
command_kind config_reload = RequestKind.config_reload

-- `result.map(|_| ())`
abbrev pub drop_value {ℓ} : {A : Type ℓ} → Result A → Result (Unit {0})
drop_value m = m >>= λ _. ok tt

-- `ClientCommand::validate`, given what `Uuid::parse_str` returns of a text.
unfoldable pub validate : (Text → Option (ℕ × ℕ)) → ClientCommand → Result (Unit {0})
validate parse_uuid (send n) = drop_value (draft_into_domain n)
validate parse_uuid (update s u) = do
  target ← selector_into_domain parse_uuid s
  changes ← update_into_domain u
  ensure (not (is_empty changes)) empty_update
validate parse_uuid (dismiss s) = drop_value (selector_into_domain parse_uuid s)
validate parse_uuid (jump k) = drop_value (accept (notification_key k))
validate parse_uuid (history h a limit) =
    ensure (not (limit == 0 || ltb 100_000 limit)) invalid_history_limit
validate parse_uuid history_guard = ok tt
validate parse_uuid (history_jump s) = drop_value (source_into_domain s)
validate parse_uuid (history_clear s a) = ok tt
validate parse_uuid config_reload = ok tt

unfoldable pub RequestKind-discrete : Discrete RequestKind
RequestKind-discrete = hlevel

-- The request fits its envelope.
unfoldable pub matches : {Value : Type 0} → RequestEnvelope Value → ClientRequest → Bool
unfolding RequestKind-discrete
matches envelope request =
    request.version == protocol_version
    && request.request_id == envelope.request_id
    && eq RequestKind-discrete (command_kind request.command) envelope.kind

-- `ClientRequest::from_envelope`. `decode` is `serde_json::from_value`.
unfoldable pub from_envelope :
    {Value : Type 0}
    → (Text → Option (ℕ × ℕ))
    → (Value → Option ClientRequest)
    → RequestEnvelope Value
    → Result ClientRequest
from_envelope parse_uuid decode envelope = do
  request ← ok_or (decode envelope.value) invalid_payload
  same ← ensure (matches envelope request) envelope_mismatch
  checked ← validate parse_uuid request.command
  ok request

-- What the daemon may rely on: the parts of the command convert to the domain.
abbrev pub Converts : (Text → Option (ℕ × ℕ)) → ClientCommand → Type 0
Converts parse_uuid (send n) = (d : NotificationDraft) × (draft_into_domain n ≡ ok d)
Converts parse_uuid (update s u) =
    (t : TargetSelector) × (changes : NotificationUpdate) × (selector_into_domain parse_uuid s
      ≡ ok t)
    × (update_into_domain u ≡ ok changes)
    × (is_empty changes ≡ false)
Converts parse_uuid (dismiss s) = (t : TargetSelector) × (selector_into_domain parse_uuid s ≡ ok t)
Converts parse_uuid (jump k) = (key : NotificationKey) × (notification_key k ≡ Ingress.ok key)
Converts parse_uuid (history h a limit) = (0 < limit) × (limit ≤ 100_000)
Converts parse_uuid (history_jump s) = (source : SourceContext) × (source_into_domain s ≡ ok source)
Converts parse_uuid history_guard = Unit
Converts parse_uuid (history_clear s a) = Unit
Converts parse_uuid config_reload = Unit

drop_value_ok :
    {A : Type 0} (m : Result A) {u : Unit {0}} → drop_value m ≡ ok u → (a : A) × (m ≡ ok a)
drop_value_ok (ok a) h = (a, refl)
drop_value_ok (err e) h = absurd (ground arith)

validate-Converts :
    (parse_uuid : Text → Option (ℕ × ℕ)) (c : ClientCommand) {u : Unit {0}}
    → validate parse_uuid c ≡ ok u
    → Converts parse_uuid c
unfolding validate
validate-Converts parse_uuid (send n) h = drop_value_ok (draft_into_domain n) h
validate-Converts parse_uuid (update s u) h =
    let (t, te, h1) = bind_ok (selector_into_domain parse_uuid s) _ h in
    let (c, ce, h2) = bind_ok (update_into_domain u) _ h1 in
    let filled = ensure-true (not (is_empty c)) empty_update h2 in
    (t, c, te, ce, ground (arith, filled))
validate-Converts parse_uuid (dismiss s) h = drop_value_ok (selector_into_domain parse_uuid s) h
validate-Converts parse_uuid (jump k) h =
    let (key, e) = drop_value_ok (accept (notification_key k)) h in
    (key, accept_ok (notification_key k) e)
validate-Converts parse_uuid (history x a limit) h =
    let within = ensure-true (not (limit == 0 || ltb 100_000 limit)) invalid_history_limit h in
    ground (arith, within)
validate-Converts parse_uuid (history_jump s) h = drop_value_ok (source_into_domain s) h
validate-Converts parse_uuid history_guard h = tt
validate-Converts parse_uuid (history_clear s a) h = tt
validate-Converts parse_uuid config_reload h = tt

and_last : (a b : Bool) → a && b ≡ true → b ≡ true
and_last a b h = ground arith

same_kind : (a b : RequestKind) → eq RequestKind-discrete a b ≡ true → a ≡ b
same_kind a b h =
    elim (RequestKind-discrete a b) as (λ d. ite d true false ≡ true → a ≡ b) [
      | yes p ↦ λ e. p
      | no p ↦ λ e. absurd (ground arith)
    ]
      h

-- The kind under which each command is sent
abbrev pub Sent : ClientCommand → RequestKind → Type 0
Sent (send n) k = k ≡ RequestKind.send
Sent (update s u) k = k ≡ RequestKind.update
Sent (dismiss s) k = k ≡ RequestKind.dismiss
Sent (jump t) k = k ≡ RequestKind.jump
Sent (history h a l) k = k ≡ RequestKind.history
Sent history_guard k = k ≡ RequestKind.history_guard
Sent (history_jump s) k = k ≡ RequestKind.history_jump
Sent (history_clear s a) k = k ≡ RequestKind.history_clear
Sent config_reload k = k ≡ RequestKind.config_reload

Sent-kind : (c : ClientCommand) → Sent c (command_kind c)
Sent-kind (send n) = refl
Sent-kind (update s u) = refl
Sent-kind (dismiss s) = refl
Sent-kind (jump t) = refl
Sent-kind (history h a l) = refl
Sent-kind history_guard = refl
Sent-kind (history_jump s) = refl
Sent-kind (history_clear s a) = refl
Sent-kind config_reload = refl

Sent-unique : (c : ClientCommand) (k : RequestKind) → Sent c k → k ≡ command_kind c
Sent-unique (send n) k h = h
Sent-unique (update s u) k h = h
Sent-unique (dismiss s) k h = h
Sent-unique (jump t) k h = h
Sent-unique (history x a l) k h = h
Sent-unique history_guard k h = h
Sent-unique (history_jump s) k h = h
Sent-unique (history_clear s a) k h = h
Sent-unique config_reload k h = h

Converts-validates :
    (parse_uuid : Text → Option (ℕ × ℕ)) (c : ClientCommand)
    → Converts parse_uuid c
    → validate parse_uuid c ≡ ok tt
unfolding validate
Converts-validates parse_uuid (send n) (d, e) = rw e refl
Converts-validates parse_uuid (update s u) (t, c, te, ce, filled) = rw (te, ce, filled) refl
Converts-validates parse_uuid (dismiss s) (t, e) = rw e refl
Converts-validates parse_uuid (jump k) (key, e) = rw e refl
Converts-validates parse_uuid (history x a limit) (low, high) =
    let within : not (limit == 0 || ltb 100_000 limit) ≡ true = ground (arith, low, high) in
    rw within refl
Converts-validates parse_uuid (history_jump s) (source, e) = rw e refl
Converts-validates parse_uuid history_guard h = refl
Converts-validates parse_uuid (history_clear s a) h = refl
Converts-validates parse_uuid config_reload h = refl

-- A request that the daemon may act on.
pub record IsAccepted {Value : Type 0} (parse_uuid : Text → Option (ℕ × ℕ))
    (envelope : RequestEnvelope Value) (request : ClientRequest) : Type 0 where
  pub version : request.version ≡ protocol_version
  pub identified : request.request_id ≡ envelope.request_id
  pub kind : Sent request.command envelope.kind
  pub converts : Converts parse_uuid request.command

matches-IsAccepted :
    {Value : Type 0} (parse_uuid : Text → Option (ℕ × ℕ)) (envelope : RequestEnvelope Value)
    (request : ClientRequest)
    → matches envelope request ≡ true
    → Converts parse_uuid request.command
    → IsAccepted parse_uuid envelope request
unfolding matches
matches-IsAccepted parse_uuid envelope request h c = record {
  version = ground (arith, h);
  identified = ground (arith, h);
  kind =
      subst (Sent request.command)
        (same_kind (command_kind request.command) envelope.kind (and_last _ _ h))
        (Sent-kind request.command);
  converts = c;
}

from_envelope-IsAccepted :
    {Value : Type 0} (parse_uuid : Text → Option (ℕ × ℕ)) (decode : Value → Option ClientRequest)
    (envelope : RequestEnvelope Value) {request : ClientRequest}
    → from_envelope parse_uuid decode envelope ≡ ok request
    → (decode envelope.value ≡ some request) × IsAccepted parse_uuid envelope request
unfolding from_envelope
from_envelope-IsAccepted parse_uuid decode envelope {request} h =
    let (r, re, h1) = bind_ok (ok_or (decode envelope.value) invalid_payload) _ h in
    let (_, se, h2) = bind_ok (ensure (matches envelope r) envelope_mismatch) _ h1 in
    let (_, ve, h3) = bind_ok (validate parse_uuid r.command) _ h2 in
    let q : r ≡ request = cc h3 in
    let same = ensure-true (matches envelope r) envelope_mismatch se in
    (
      ok_or-some (decode envelope.value) invalid_payload re ∙ ap some q,
      subst (IsAccepted parse_uuid envelope) q (
          matches-IsAccepted parse_uuid envelope r same
            (validate-Converts parse_uuid r.command ve)),
    )

IsAccepted-matches :
    {Value : Type 0} (parse_uuid : Text → Option (ℕ × ℕ)) (envelope : RequestEnvelope Value)
    (request : ClientRequest)
    → IsAccepted parse_uuid envelope request
    → matches envelope request ≡ true
unfolding matches
IsAccepted-matches parse_uuid envelope request h =
    let kind = Sent-unique request.command envelope.kind h.kind in
    ground (arith, h.version, h.identified, kind)

-- `from_envelope` returns a request exactly if the payload of the envelope decodes to it, it is
-- of the protocol's version and has the id of the envelope, its command is one of the kind of the
-- envelope, and all parts of the command convert to the domain: a draft, a target with an update
-- that is not empty, a key, a source, or a limit of 1 to 100000.
pub from_envelope_iff :
    {Value : Type 0} (parse_uuid : Text → Option (ℕ × ℕ)) (decode : Value → Option ClientRequest)
    (envelope : RequestEnvelope Value) (request : ClientRequest)
    → (from_envelope parse_uuid decode envelope ≡ ok request)
      ↔ ((decode envelope.value ≡ some request) × IsAccepted parse_uuid envelope request)
unfolding from_envelope
from_envelope_iff parse_uuid decode envelope request = (
  (λ h. from_envelope-IsAccepted parse_uuid decode envelope h),
  (λ (decoded, h).
      rw
        (
          decoded,
          IsAccepted-matches parse_uuid envelope request h,
          Converts-validates parse_uuid request.command h.converts,
        )
        refl),
)
