-- ===== src/Protocol/Wire/RoundTrip.antt =====
-- What goes over the wire comes back.
use Prim.Native.String.{String}
use tmnotify.Base.{
  ℕ, ◌≡◌, refl, ap, Option, none, some, [], ◌∷◌, arith, true, false, ◌&&◌, All, Bool-cases, inl,
  inr, is_some, is_none, if◌then◌else◌,
}
use mathlib.Core.Option.{map as Option-map}
use tmnotify.Notification.Ingress.{
  Text, max_metadata_value_bytes, max_title_bytes, max_body_bytes, max_key_bytes,
  max_source_id_bytes, max_source_value_bytes, max_cwd_bytes, byte_len,
}
use tmnotify.Notification.Ingress
use tmnotify.Notification.Plain.{normalize_required, stable_tmux_id, all_digits, is_ascii_digit}
use tmnotify.Notification.Plain.Bounded.{normalize_bounded_fixed, IsBounded}
use tmnotify.Notification.Source.{
  Provider, Timeout, after, never, NormalizedMetadata, with_agent_name, with_tool_name,
  metadata_default, SourceContext, Placement, Presentation, toast, attention, notification_key,
  overrides_default, info, normal, source_context, with_cwd, with_command, with_pane_title,
  with_provider_session, tmux_server_id,
}
use tmnotify.Notification.Draft.{
  NotificationDraft, draft_new, draft_of, is_attention, default_timeout,
}
use tmnotify.Notification.Draft
use tmnotify.Notification.Draft.Valid.{IsValid, IsKeyed}
use tmnotify.Protocol.Error.{ok}
use tmnotify.Protocol.Wire.{
  optionally, given, provided, metadata_into_domain, metadata_from_domain, source_into_domain,
  source_from_domain, sourced, keyed, placed, draft_into_domain, draft_from_domain, wire_timeout,
  timeout_millis,
}
use tmnotify.Protocol.Wire.Source.{IsRequired, IsOptional, IsSource, IsTmuxId}
use tmnotify.Protocol.Wire.Valid.{IsMetadata, IsMillis, IsDraft}

normalize_required_fixed :
    (field : String) (t : Text) (maximum : ℕ)
    → IsRequired maximum t
    → normalize_required field t maximum ≡ Ingress.ok t
unfolding normalize_required
normalize_required_fixed field [] maximum h = absurd (h.1 refl)
normalize_required_fixed field (c ∷ cs) maximum h =
    rw (normalize_bounded_fixed field (c ∷ cs) maximum h.0)

All-all_digits : (cs : Text) → All (λ d. is_ascii_digit d ≡ true) cs → all_digits cs ≡ true
unfolding all_digits
All-all_digits [] h = refl
All-all_digits (c ∷ cs) h = rw (h.0, All-all_digits cs h.1)

stable_tmux_id_fixed :
    (field : String) (t : Text) (prefix : ℕ)
    → IsTmuxId prefix t
    → stable_tmux_id field t prefix ≡ Ingress.ok t
unfolding stable_tmux_id
stable_tmux_id_fixed field [] prefix h = absurd h.0
stable_tmux_id_fixed field (c ∷ suffix) prefix h = ground (arith, h, All-all_digits suffix h.0.2)

-- The source that is made of a tmux context.
abbrev bare : SourceContext → SourceContext
bare s = record s {
  provider = none;
  provider_session_id = none;
  cwd = none;
  command = none;
  pane_title = none;
}

source_context_fixed :
    (s : SourceContext)
    → IsSource s
    → source_context s.tmux_server_id s.session_id s.window_id s.pane_id ≡ Ingress.ok (bare s)
unfolding source_context
source_context_fixed s h = rw (
  stable_tmux_id_fixed "session ID" s.session_id b'$' h.session_ok,
  stable_tmux_id_fixed "window ID" s.window_id b'@' h.window_ok,
  stable_tmux_id_fixed "pane ID" s.pane_id b'%' h.pane_ok,
)

provided_fixed :
    (p : Option Provider) (session : Option Text) (s : SourceContext)
    → is_some p ≡ is_some session
    → IsOptional (IsRequired max_source_value_bytes) session
    → provided p session (record s { provider = none; provider_session_id = none })
      ≡ ok (record s { provider = p; provider_session_id = session })
unfolding with_provider_session
provided_fixed none none s e h = refl
provided_fixed none (some session) s e h = absurd (ground arith)
provided_fixed (some p) none s e h = absurd (ground arith)
provided_fixed (some p) (some session) s e h =
    rw (normalize_required_fixed "provider session ID" session max_source_value_bytes h)

with_cwd_fixed :
    (o : Option Text) (s : SourceContext)
    → IsOptional (IsRequired max_cwd_bytes) o
    → optionally with_cwd o (record s { cwd = none }) ≡ ok (record s { cwd = o })
unfolding with_cwd
with_cwd_fixed none s h = refl
with_cwd_fixed (some t) s h = rw (normalize_required_fixed "source cwd" t max_cwd_bytes h)

with_command_fixed :
    (o : Option Text) (s : SourceContext)
    → IsOptional (IsRequired max_source_value_bytes) o
    → optionally with_command o (record s { command = none }) ≡ ok (record s { command = o })
unfolding with_command
with_command_fixed none s h = refl
with_command_fixed (some t) s h =
    rw (normalize_required_fixed "source command" t max_source_value_bytes h)

with_pane_title_fixed :
    (o : Option Text) (s : SourceContext)
    → IsOptional (IsBounded max_source_value_bytes) o
    → optionally with_pane_title o (record s { pane_title = none })
      ≡ ok (record s { pane_title = o })
unfolding with_pane_title
with_pane_title_fixed none s h = refl
with_pane_title_fixed (some t) s h =
    rw (normalize_bounded_fixed "source pane title" t max_source_value_bytes h)

source_round : (s : SourceContext) → IsSource s → source_into_domain (source_from_domain s) ≡ ok s
unfolding source_into_domain source_from_domain tmux_server_id
source_round s h =
    rw
      (
        normalize_required_fixed "tmux server ID" s.tmux_server_id max_source_id_bytes h.server_ok,
        source_context_fixed s h,
        provided_fixed s.provider s.provider_session_id (bare s) h.paired h.provider_ok,
        with_cwd_fixed s.cwd (record s { cwd = none; command = none; pane_title = none }) h.cwd_ok,
        with_command_fixed s.command (record s { command = none; pane_title = none }) h.command_ok,
      )
      (with_pane_title_fixed s.pane_title s h.title_ok)

with_agent_name_fixed :
    (o : Option Text) (m : NormalizedMetadata)
    → IsOptional (IsRequired max_metadata_value_bytes) o
    → optionally with_agent_name o (record m { agent_name = none })
      ≡ ok (record m { agent_name = o })
unfolding with_agent_name
with_agent_name_fixed none m h = refl
with_agent_name_fixed (some t) m h =
    rw (normalize_required_fixed "agent name" t max_metadata_value_bytes h)

with_tool_name_fixed :
    (o : Option Text) (m : NormalizedMetadata)
    → IsOptional (IsRequired max_metadata_value_bytes) o
    → optionally with_tool_name o (record m { tool_name = none }) ≡ ok (record m { tool_name = o })
unfolding with_tool_name
with_tool_name_fixed none m h = refl
with_tool_name_fixed (some t) m h =
    rw (normalize_required_fixed "tool name" t max_metadata_value_bytes h)

metadata_round :
    (m : NormalizedMetadata) → IsMetadata m → metadata_into_domain (metadata_from_domain m) ≡ ok m
unfolding metadata_into_domain metadata_from_domain
metadata_round m h =
    rw (with_agent_name_fixed m.agent_name (record m { tool_name = none }) h.agent_ok)
      (with_tool_name_fixed m.tool_name m h.tool_ok)

timeout_round : (t : Timeout) → IsMillis t → wire_timeout (timeout_millis t) ≡ t
unfolding wire_timeout timeout_millis
timeout_round never h = refl
timeout_round (after duration) (n, e, le) = ap after (rw e (ground (arith, le)))

sourced_round :
    (o : Option SourceContext)
    → IsOptional IsSource o
    → sourced (Option-map source_from_domain o) ≡ ok o
sourced_round none h = refl
sourced_round (some s) h = rw (source_round s h)

-- The draft of the texts alone.
abbrev fresh : NotificationDraft → NotificationDraft
fresh d = record d {
  key = none;
  level = info;
  priority = normal;
  timeout = default_timeout d.presentation;
  overrides = overrides_default;
  metadata = metadata_default;
}

sourced_false :
    (p : Presentation) (source : Option SourceContext)
    → (is_attention p ≡ true → is_some source ≡ true)
    → is_attention p && is_none source ≡ false
sourced_false toast source h = refl
sourced_false attention (some s) h = refl
sourced_false attention none h = absurd (ground (arith, h refl))

untimed_fixed :
    (d : NotificationDraft)
    → IsValid d
    → (if is_attention d.presentation then never else d.timeout) ≡ d.timeout
untimed_fixed d h = elim (Bool-cases (is_attention d.presentation)) [
  | inl e ↦ rw (e, h.untimed e)
  | inr e ↦ rw e
]

draft_new_fixed :
    (d : NotificationDraft)
    → IsValid d
    → draft_new d.presentation d.title d.body d.source ≡ Ingress.ok (fresh d)
unfolding draft_new
draft_new_fixed d h = rw (
  normalize_bounded_fixed "Notification title" d.title max_title_bytes h.title_ok,
  normalize_bounded_fixed "Notification body" d.body max_body_bytes h.body_ok,
  sourced_false d.presentation d.source h.sourced,
)

keyed_fixed :
    (o : Option Text) (d : NotificationDraft)
    → IsKeyed o
    → optionally keyed o (record d { key = none }) ≡ ok (record d { key = o })
unfolding notification_key
keyed_fixed none d h = refl
keyed_fixed (some key) d h = rw (normalize_required_fixed "Notification Key" key max_key_bytes h)

placed_fixed :
    (o : Option Placement) (d : NotificationDraft)
    → given placed o (record d { overrides = overrides_default })
      ≡ record d { overrides = record { position = o } }
placed_fixed none d = refl
placed_fixed (some p) d = refl

-- The wire form of a draft that is valid with its source and metadata, and whose timeout is none
-- or whole milliseconds of 64 bits, is taken back as that draft.
pub draft_into_domain-draft_from_domain :
    (d : NotificationDraft) → IsDraft d → draft_into_domain (draft_from_domain d) ≡ ok d
unfolding draft_into_domain draft_from_domain Draft.with_timeout
draft_into_domain-draft_from_domain d h = rw (
  sourced_round d.source h.source_ok,
  draft_new_fixed d h.valid,
  timeout_round d.timeout h.millis,
  untimed_fixed d h.valid,
  keyed_fixed d.key (record d { overrides = overrides_default; metadata = metadata_default })
      h.valid.key_ok,
  metadata_round d.metadata h.metadata_ok,
  placed_fixed d.overrides.position (record d { metadata = metadata_default }),
)
