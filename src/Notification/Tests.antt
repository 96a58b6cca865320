-- ===== src/Notification/Tests.antt =====
-- The theorems on Notifications at small inputs.
use tmnotify.Base.{◌≤◌, ◌≡◌, refl, ◌↔◌, true, false, none, some, [], ◌∷◌, All}
use tmnotify.Notification.Ingress.{Text, byte_len, max_source_id_bytes}
use tmnotify.Notification.Plain.{
  is_display_control, consume_csi, consume_ansi_after_escape, normalize_char, normalize_loop,
  normalize_plain_text, normalize_bounded, stable_tmux_id, all_digits,
}
use tmnotify.Notification.Plain.Safe.{
  IsPlain, normalize_plain_text-IsPlain, normalize_plain_text_idem,
}
use tmnotify.Notification.Plain.Bounded.{IsStableId, stable_tmux_id_lem}
use tmnotify.Notification.Source.{
  toast, info, high, normal, Timeout, SourceContext, overrides_default, metadata_default,
}
use tmnotify.Notification.Draft.{NotificationDraft, draft_new}
use tmnotify.Notification.Draft.Valid.{IsValid, draft_new-IsValid}
use tmnotify.Notification.Update.{NotificationUpdate, update_new}
use tmnotify.Notification.Record.{
  Notification, from_draft, replace_content, has_same_content, apply_update, replace_if_changed,
  replace_timeout,
}
use tmnotify.Notification.Path.{components}
use tmnotify.Notification.Record.Laws.{
  view, has_same_content_iff, apply_update_unchanged, apply_update_idem,
}

-- A red "A", and a tab
abbrev red : Text
red = 27 ∷ 91 ∷ 51 ∷ 49 ∷ 109 ∷ 65 ∷ 9 ∷ []

-- It loses its colour, and the tab is four spaces.
red_plain : normalize_plain_text red ≡ 65 ∷ 32 ∷ 32 ∷ 32 ∷ 32 ∷ []
unfolding normalize_plain_text normalize_loop normalize_char consume_ansi_after_escape consume_csi
    is_display_control
red_plain = refl

normalize_plain_text-IsPlain_example : All IsPlain (normalize_plain_text red)
normalize_plain_text-IsPlain_example = normalize_plain_text-IsPlain red

normalize_plain_text_idem_example :
    normalize_plain_text (normalize_plain_text red) ≡ normalize_plain_text red
normalize_plain_text_idem_example = normalize_plain_text_idem red

-- The pane `%12`
abbrev pane : Text
pane = 37 ∷ 49 ∷ 50 ∷ []

stable_tmux_id_lem_example :
    (pane ≡ pane) × IsStableId 37 pane × (byte_len pane ≤ max_source_id_bytes)
unfolding stable_tmux_id all_digits byte_len
stable_tmux_id_lem_example = stable_tmux_id_lem "pane id" pane 37 refl

abbrev draft : NotificationDraft
draft = record {
  key = none;
  level = info;
  priority = normal;
  presentation = toast;
  title = 65 ∷ [];
  body = [];
  timeout = Timeout.after 3000000000;
  source = none;
  overrides = overrides_default;
  metadata = metadata_default;
}

draft_new-IsValid_example : IsValid draft
unfolding draft_new normalize_bounded normalize_plain_text normalize_loop normalize_char
    is_display_control byte_len
draft_new-IsValid_example = draft_new-IsValid toast (65 ∷ []) [] none refl

abbrev notification : Notification
notification = from_draft 7 draft 100

-- A source in `/t`
abbrev source : SourceContext
source = record {
  provider = none;
  provider_session_id = none;
  tmux_server_id = 65 ∷ [];
  session_id = 36 ∷ 49 ∷ [];
  window_id = 64 ∷ 49 ∷ [];
  pane_id = pane;
  cwd = some (47 ∷ 116 ∷ []);
  command = none;
  pane_title = none;
}

-- The same path, written `/t//./`
abbrev respelled : NotificationDraft
respelled = record draft {
  source = some (record source { cwd = some (47 ∷ 116 ∷ 47 ∷ 47 ∷ 46 ∷ 47 ∷ []) });
}

abbrev sourced : Notification
sourced = record notification { source = some source }

respelled-components : components (47 ∷ 116 ∷ 47 ∷ 47 ∷ 46 ∷ 47 ∷ []) ≡ components (47 ∷ 116 ∷ [])
unfolding components
respelled-components = refl

-- A `.` at the start is a component, and an absolute path is no relative one.
relative-components :
    components (46 ∷ 47 ∷ 116 ∷ []) ∷ components (47 ∷ 116 ∷ []) ∷ components (116 ∷ 47 ∷ []) ∷ []
    ≡ ((46 ∷ []) ∷ (116 ∷ []) ∷ []) ∷ ((47 ∷ []) ∷ (116 ∷ []) ∷ []) ∷ ((116 ∷ []) ∷ []) ∷ []
unfolding components
relative-components = refl

has_same_content_iff_example :
    (has_same_content sourced respelled ≡ true)
    ↔ (view (replace_content sourced respelled sourced.updated_at) ≡ view sourced)
has_same_content_iff_example = has_same_content_iff sourced respelled

abbrev raise : NotificationUpdate
raise = record update_new { priority = some high }

apply_update_idem_example :
    apply_update (apply_update notification raise 200).0 raise 300
    ≡ ((apply_update notification raise 200).0, false)
apply_update_idem_example = apply_update_idem notification raise 200 300

apply_update_unchanged_example : (apply_update notification update_new 200).0 ≡ notification
unfolding apply_update replace_if_changed replace_timeout from_draft
apply_update_unchanged_example = apply_update_unchanged notification update_new 200 refl
