-- ===== src/Notification/Record/Laws.antt =====
-- What the operations of a Notification change, and what they keep.
use tmnotify.Base.{ℕ, ◌≡◌, refl, ◌↔◌, Bool, true, false, ◌&&◌, Option, none, some, List, arith}
use mathlib.Core.Option
use tmnotify.Notification.Ingress.{Text}
use tmnotify.Notification.Path.{components}
use tmnotify.Notification.Source.{
  SourceContext, Presentation, toast, attention, Timeout, Timeout-discrete, Text-discrete,
  Level-discrete, Priority-discrete, Overrides-discrete,
}
use tmnotify.Notification.Draft.{NotificationDraft}
use tmnotify.Notification.Update.{NotificationUpdate}
use tmnotify.Notification.Record.{
  Notification, eq, same_source, same_sources, has_same_content, replace_content,
  replace_if_changed, replace_timeout, apply_update,
}

and_true : (a b : Bool) → ((a && b) ≡ true) ↔ ((a ≡ true) × (b ≡ true))
and_true a b = ground arith

equal_lem : {A : Type 0} (dec : Discrete A) (a b : A) → (eq dec a b ≡ true) ↔ (a ≡ b)
equal_lem dec a b = ground arith

-- The content of a Notification is that of the draft, field by field.
record SameContent (n : Notification) (d : NotificationDraft) : Type 0 where
  key : n.key ≡ d.key
  level : n.level ≡ d.level
  priority : n.priority ≡ d.priority
  presentation : n.presentation ≡ d.presentation
  title : n.title ≡ d.title
  body : n.body ≡ d.body
  timeout : n.timeout ≡ d.timeout
  source : same_sources n.source d.source ≡ true
  overrides : n.overrides ≡ d.overrides
  metadata : n.metadata ≡ d.metadata

-- A Source Context without its path, and the components of the path.
abbrev pub path_view : Option SourceContext → Option (SourceContext × Option (List Text))
path_view none = none
path_view (some s) = some (record s { cwd = none }, Option.map components s.cwd)

same_source_lem :
    (s t : SourceContext) → (same_source s t ≡ true) ↔ (path_view (some s) ≡ path_view (some t))
unfolding same_source
same_source_lem s t = (
  (λ h. let parts = simp (and_true, equal_lem) at h in ground arith),
  (λ h. simp (and_true, equal_lem) (ground arith)),
)

same_sources_lem :
    (a b : Option SourceContext) → (same_sources a b ≡ true) ↔ (path_view a ≡ path_view b)
unfolding same_sources
same_sources_lem none none = ((λ h. refl), (λ h. refl))
same_sources_lem none (some t) = ((λ h. absurd (ground arith)), (λ h. absurd (ground arith)))
same_sources_lem (some s) none = ((λ h. absurd (ground arith)), (λ h. absurd (ground arith)))
same_sources_lem (some s) (some t) = same_source_lem s t

-- A Notification but for the spelling of its path: two paths with the same components are one.
abbrev pub View : Type 0
View = Notification × Option (SourceContext × Option (List Text))

abbrev pub view : Notification → View
view n = (record n { source = none }, path_view n.source)

SameContent-replace :
    (n : Notification) (d : NotificationDraft)
    → SameContent n d ↔ (view (replace_content n d n.updated_at) ≡ view n)
unfolding replace_content
SameContent-replace n d = (
  (λ s. let same = (same_sources_lem n.source d.source).0 s.source in ground arith),
  (λ h.
      let same : path_view n.source ≡ path_view d.source = ground arith in
      let equal = (same_sources_lem n.source d.source).1 same in ground arith),
)

has_same_content-SameContent :
    (n : Notification) (d : NotificationDraft) → (has_same_content n d ≡ true) ↔ SameContent n d
unfolding has_same_content
has_same_content-SameContent n d = (
  (λ h. let parts = simp (and_true, equal_lem) at h in assumption),
  (λ s. simp (and_true, equal_lem) (assumption)),
)

-- A Notification has the same content as a draft exactly if replacing its content by the draft's,
-- at its time of update, gives the same Notification but for the spelling of the path of its
-- source: two paths with the same components count as one.
pub has_same_content_iff :
    (n : Notification) (d : NotificationDraft)
    → (has_same_content n d ≡ true) ↔ (view (replace_content n d n.updated_at) ≡ view n)
has_same_content_iff n d = (
  (λ h. (SameContent-replace n d).0 ((has_same_content-SameContent n d).0 h)),
  (λ h. (has_same_content-SameContent n d).1 ((SameContent-replace n d).1 h)),
)

replace_if_changed_lem :
    {A : Type 0} (dec : Discrete A) (old : A) (new : Option A)
    → (replace_if_changed dec old new).1 ≡ false
    → (replace_if_changed dec old new).0 ≡ old
unfolding replace_if_changed
replace_if_changed_lem dec old none h = refl
replace_if_changed_lem dec old (some v) h = ground arith

replace_if_changed_again :
    {A : Type 0} (dec : Discrete A) (old : A) (new : Option A)
    → replace_if_changed dec (replace_if_changed dec old new).0 new
      ≡ ((replace_if_changed dec old new).0, false)
unfolding replace_if_changed
replace_if_changed_again dec old none = refl
replace_if_changed_again dec old (some v) = ground arith

replace_timeout_lem :
    (p : Presentation) (old : Timeout) (new : Option Timeout)
    → (replace_timeout p old new).1 ≡ false
    → (replace_timeout p old new).0 ≡ old
unfolding replace_timeout
replace_timeout_lem toast old new h = replace_if_changed_lem Timeout-discrete old new h
replace_timeout_lem attention old new h = refl

replace_timeout_again :
    (p : Presentation) (old : Timeout) (new : Option Timeout)
    → replace_timeout p (replace_timeout p old new).0 new ≡ ((replace_timeout p old new).0, false)
unfolding replace_timeout
replace_timeout_again toast old new = replace_if_changed_again Timeout-discrete old new
replace_timeout_again attention old new = refl

-- An update that says it changed nothing leaves the Notification as it was.
pub apply_update_unchanged :
    (n : Notification) (u : NotificationUpdate) (now : ℕ)
    → (apply_update n u now).1 ≡ false
    → (apply_update n u now).0 ≡ n
unfolding apply_update
apply_update_unchanged n u now h = ground (
  arith,
  replace_if_changed_lem Text-discrete n.title u.title,
  replace_if_changed_lem Text-discrete n.body u.body,
  replace_if_changed_lem Level-discrete n.level u.level,
  replace_if_changed_lem Priority-discrete n.priority u.priority,
  replace_if_changed_lem Overrides-discrete n.overrides u.overrides,
  replace_timeout_lem n.presentation n.timeout u.timeout,
)

-- Applying an update a second time, at whatever time, changes nothing and says so.
pub apply_update_idem :
    (n : Notification) (u : NotificationUpdate) (now later : ℕ)
    → apply_update (apply_update n u now).0 u later ≡ ((apply_update n u now).0, false)
unfolding apply_update
apply_update_idem n u now later = rw (
  replace_if_changed_again Text-discrete n.title u.title,
  replace_if_changed_again Text-discrete n.body u.body,
  replace_if_changed_again Level-discrete n.level u.level,
  replace_if_changed_again Priority-discrete n.priority u.priority,
  replace_if_changed_again Overrides-discrete n.overrides u.overrides,
  replace_timeout_again n.presentation n.timeout u.timeout,
)

-- An update never touches identity, key, presentation, source, delivery or the times of creation
-- and of the last jump, and leaves the timeout of an Attention alone.
pub apply_update_keeps :
    (n : Notification) (u : NotificationUpdate) (now : ℕ)
    → let m = (apply_update n u now).0 in
      (m.id ≡ n.id)
      × (m.key ≡ n.key)
      × (m.presentation ≡ n.presentation)
      × (m.source ≡ n.source)
      × (m.delivery ≡ n.delivery)
      × (m.close_reason ≡ n.close_reason)
      × (m.created_at ≡ n.created_at)
      × (m.last_jumped_at ≡ n.last_jumped_at)
      × (n.presentation ≡ attention → m.timeout ≡ n.timeout)
unfolding apply_update replace_timeout
apply_update_keeps n u now = ground arith
