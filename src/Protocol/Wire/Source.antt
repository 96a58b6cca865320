-- ===== src/Protocol/Wire/Source.antt =====
-- The sources that come over the wire.
use Prim.Native.String.{String}
use tmnotify.Base.{ℕ, ◌≤◌, ◌≡◌, refl, ◌≢◌, subst, Option, none, some, [], arith, is_some}
use tmnotify.Notification.Ingress.{
  Text, max_title_bytes, max_body_bytes, max_source_id_bytes, max_source_value_bytes, max_cwd_bytes,
  max_metadata_value_bytes, byte_len,
}
use tmnotify.Notification.Ingress
use tmnotify.Notification.Plain.{normalize_bounded, normalize_required, stable_tmux_id}
use tmnotify.Notification.Plain.Bounded.{
  IsBounded, IsStableId, normalize_bounded-IsBounded, normalize_required-IsBounded,
  stable_tmux_id_lem,
}
use tmnotify.Notification.Source.{
  SourceContext, tmux_server_id, source_context, with_provider_session, with_cwd, with_command,
  with_pane_title, Provider,
}
use tmnotify.Protocol.Error.{ok, accept}
use tmnotify.Protocol.Wire.{WireSourceContext, optionally, provided, source_into_domain}
use tmnotify.Protocol.Wire.Steps.{bind_ok, ingress_bind_ok, accept_ok, made, optionally_keeps}

abbrev pub IsOptional {ℓ} : {A : Type 0} → (A → Type ℓ) → Option A → Type ℓ
IsOptional P none = Unit
IsOptional P (some a) = P a

-- A bounded text that is not empty
abbrev pub IsRequired : ℕ → Text → Type 0
IsRequired maximum t = IsBounded maximum t × (t ≢ [])

-- A tmux id of the form that its prefix wants
abbrev pub IsTmuxId : ℕ → Text → Type 0
IsTmuxId prefix t = IsStableId prefix t × (byte_len t ≤ max_source_id_bytes)

-- Each text of a source is plain, bounded and of its form, and it has a provider exactly with a
-- session of it.
pub record IsSource (s : SourceContext) : Type 0 where
  pub server_ok : IsRequired max_source_id_bytes s.tmux_server_id
  pub session_ok : IsTmuxId b'$' s.session_id
  pub window_ok : IsTmuxId b'@' s.window_id
  pub pane_ok : IsTmuxId b'%' s.pane_id
  pub paired : is_some s.provider ≡ is_some s.provider_session_id
  pub provider_ok : IsOptional (IsRequired max_source_value_bytes) s.provider_session_id
  pub cwd_ok : IsOptional (IsRequired max_cwd_bytes) s.cwd
  pub command_ok : IsOptional (IsRequired max_source_value_bytes) s.command
  pub title_ok : IsOptional (IsBounded max_source_value_bytes) s.pane_title

stable-IsTmuxId :
    (field : String) (value : Text) (prefix : ℕ) {t : Text}
    → stable_tmux_id field value prefix ≡ Ingress.ok t
    → IsTmuxId prefix t
stable-IsTmuxId field value prefix e = let l = stable_tmux_id_lem field value prefix e in (l.1, l.2)

source_context-IsSource :
    (server session window pane : Text) {s : SourceContext}
    → IsRequired max_source_id_bytes server
    → source_context server session window pane ≡ Ingress.ok s
    → IsSource s
unfolding source_context
source_context-IsSource server session window pane {s} h e =
    let (session', se, e1) = ingress_bind_ok (stable_tmux_id "session ID" session b'$') _ e in
    let (window', we, e2) = ingress_bind_ok (stable_tmux_id "window ID" window b'@') _ e1 in
    let (pane', pe, e3) = ingress_bind_ok (stable_tmux_id "pane ID" pane b'%') _ e2 in
    made IsSource e3 (record {
      server_ok = h;
      session_ok = stable-IsTmuxId "session ID" session b'$' se;
      window_ok = stable-IsTmuxId "window ID" window b'@' we;
      pane_ok = stable-IsTmuxId "pane ID" pane b'%' pe;
      paired = refl;
      provider_ok = tt;
      cwd_ok = tt;
      command_ok = tt;
      title_ok = tt;
    })

with_cwd-IsSource :
    (s : SourceContext) (value : Text) {t : SourceContext}
    → IsSource s
    → with_cwd s value ≡ Ingress.ok t
    → IsSource t
unfolding with_cwd
with_cwd-IsSource s value {t} h e =
    let (v, ve, e1) = ingress_bind_ok (normalize_required "source cwd" value max_cwd_bytes) _ e in
    let cwd = normalize_required-IsBounded "source cwd" value max_cwd_bytes ve in
    made IsSource e1 (ground (arith, h, cwd))

with_command-IsSource :
    (s : SourceContext) (value : Text) {t : SourceContext}
    → IsSource s
    → with_command s value ≡ Ingress.ok t
    → IsSource t
unfolding with_command
with_command-IsSource s value {t} h e =
    let (v, ve, e1) =
      ingress_bind_ok (normalize_required "source command" value max_source_value_bytes) _ e in
    let command = normalize_required-IsBounded "source command" value max_source_value_bytes ve in
    made IsSource e1 (ground (arith, h, command))

with_pane_title-IsSource :
    (s : SourceContext) (value : Text) {t : SourceContext}
    → IsSource s
    → with_pane_title s value ≡ Ingress.ok t
    → IsSource t
unfolding with_pane_title
with_pane_title-IsSource s value {t} h e =
    let (v, ve, e1) =
      ingress_bind_ok (normalize_bounded "source pane title" value max_source_value_bytes) _ e in
    let title = normalize_bounded-IsBounded "source pane title" value max_source_value_bytes ve in
    made IsSource e1 (ground (arith, h, title))

with_provider_session-IsSource :
    (s : SourceContext) (p : Provider) (value : Text) {t : SourceContext}
    → IsSource s
    → with_provider_session s p value ≡ Ingress.ok t
    → IsSource t
unfolding with_provider_session
with_provider_session-IsSource s p value {t} h e =
    let (v, ve, e1) =
      ingress_bind_ok (normalize_required "provider session ID" value max_source_value_bytes) _ e in
    let session =
      normalize_required-IsBounded "provider session ID" value max_source_value_bytes ve in
    made IsSource e1 (ground (arith, h, session))

provided-IsSource :
    (p : Option Provider) (session : Option Text) (s : SourceContext) {t : SourceContext}
    → IsSource s
    → provided p session s ≡ ok t
    → IsSource t
provided-IsSource none none s h e = subst IsSource (cc e) h
provided-IsSource none (some session) s h e = absurd (ground arith)
provided-IsSource (some p) none s h e = absurd (ground arith)
provided-IsSource (some p) (some session) s h e =
    with_provider_session-IsSource s p session h (accept_ok (with_provider_session s p session) e)

-- A source that comes over the wire is valid.
pub source_into_domain-IsSource :
    (w : WireSourceContext) {s : SourceContext} → source_into_domain w ≡ ok s → IsSource s
unfolding source_into_domain tmux_server_id
source_into_domain-IsSource w {s} e =
    let (server, se, e1) = bind_ok (accept (tmux_server_id w.tmux_server_id)) _ e in
    let (source, ce, e2) =
      bind_ok (accept (source_context server w.session_id w.window_id w.pane_id)) _ e1 in
    let (with_provider, pe, e3) = bind_ok (provided w.provider w.provider_session_id source) _ e2 in
    let (with_cwd', we, e4) = bind_ok (optionally with_cwd w.cwd with_provider) _ e3 in
    let (with_command', me, e5) = bind_ok (optionally with_command w.command with_cwd') _ e4 in
    let new =
      source_context-IsSource server w.session_id w.window_id w.pane_id
        (normalize_required-IsBounded "tmux server ID" w.tmux_server_id max_source_id_bytes
          (accept_ok (tmux_server_id w.tmux_server_id) se))
        (accept_ok (source_context server w.session_id w.window_id w.pane_id) ce) in
    let paired = provided-IsSource w.provider w.provider_session_id source new pe in
    let at =
      optionally_keeps IsSource with_cwd (λ s a t. with_cwd-IsSource s a) w.cwd with_provider paired
        we in
    let run =
      optionally_keeps IsSource with_command (λ s a t. with_command-IsSource s a) w.command
        with_cwd' at me in
    optionally_keeps IsSource with_pane_title (λ s a t. with_pane_title-IsSource s a) w.pane_title
      with_command' run e5
