-- ===== src/Session/Invariant.antt =====
-- The invariant of the sessions, and the parts of the calls that keep it.
use tmnotify.Base.{
  ℕ, ◌+◌, ◌≤◌, ◌<◌, ◌≡◌, refl, sym, ap, ◌∙◌, true, Option, none, some, List, [], ◌∷◌, ◌++◌, ◌==◌,
  ite, length, present, arith,
}
use tmnotify.Base.Map.{insert, remove, lookup-remove, lookup-insert}
use tmnotify.Base.Keys.{
  keys, occurs, occurs-remove, length-remove, occurs-append, occurs-insert, length-keys,
  length-le_of_occurs,
}
use tmnotify.Notification.Ingress.{Text}
use tmnotify.Notification.Source.{Text-discrete}
use tmnotify.Session.State.{
  WindowDisplayId, Token, PendingCredential, RetiredReason, stale, DisplaySession, RendererSessions,
}
use tmnotify.Session.Credentials.{
  get, retired_capacity, trim_retired, retire, retire_token, retire_pending, expire_one,
}
use tmnotify.Session.Matched.{
  View, Matched, Set, link_parts, none_ne_link, drop-Matched, ext-Matched,
}

-- What a credential opens
abbrev pub opens : Option PendingCredential → Option (Text × ℕ)
opens none = none
opens (some c) = some (c.window_display_id, c.generation)

-- What a display waits for
abbrev pub waits_token : ℕ → Option Token → Option (Text × ℕ)
waits_token generation none = none
waits_token generation (some token) = some (token, generation)

abbrev pub waits : Option DisplaySession → Option (Text × ℕ)
waits none = none
waits (some d) = waits_token d.generation d.pending_token

module _ {G : Type 0} where
  abbrev pub credential_view : RendererSessions G → View
  credential_view s t = opens (get t s.credentials)

  abbrev pub display_view : RendererSessions G → View
  display_view s i = waits (get i s.displays)

  -- Each credential belongs to the one display that waits for it, and each waiting display has its
  -- credential; none of them is retired; each retired token stands in the order of the retired ones;
  -- the sessions, the retired tokens and their order are within their bounds.
  pub record Inv (s : RendererSessions G) : Type 0 where
    pub matched : Matched (credential_view s) (display_view s)
    pub apart : (t : Text) → present (get t s.credentials) + present (get t s.retired) ≤ 1
    pub once : (t : Text) → occurs Text-discrete t (keys s.credentials) ≤ 1
    pub room : length s.displays ≤ s.limits.max_sessions
    pub kept : length s.retired_order ≤ retired_capacity s.limits.max_sessions
    pub listed :
        (t : Text)
        → occurs Text-discrete t (keys s.retired) ≤ occurs Text-discrete t s.retired_order
    pub stored : length s.retired ≤ retired_capacity s.limits.max_sessions
    pub capacity : 0 < s.limits.channel_capacity

waits_parts :
    (g : ℕ) (o : Option Token) (h : ℕ) (t : Token)
    → waits_token g o ≡ some (t, h)
    → (g ≡ h) × (o ≡ some t)
waits_parts g none h t e = absurd (none_ne_link (t, h) e)
waits_parts g (some u) h t e = let parts = link_parts u t g h e in (parts.1, ap some parts.0)

pub same_generation : (g : ℕ) → g == g ≡ true
same_generation g = ground arith

length-trim_retired :
    (capacity : ℕ) (order : List Token) (m : List (Token × (WindowDisplayId × RetiredReason)))
    → length (trim_retired capacity order m).0 ≤ capacity
unfolding trim_retired
length-trim_retired capacity [] m = omega arith
length-trim_retired capacity (t ∷ order) m =
    ground (arith, length-trim_retired capacity order (remove Text-discrete t m))

present-trim_retired :
    (capacity : ℕ) (order : List Token) (m : List (Token × (WindowDisplayId × RetiredReason)))
    (x : Text)
    → present (get x (trim_retired capacity order m).1) ≤ present (get x m)
unfolding trim_retired
present-trim_retired capacity [] m x = omega arith
present-trim_retired capacity (t ∷ order) m x = ground (
  arith,
  present-trim_retired capacity order (remove Text-discrete t m) x,
  lookup-remove Text-discrete x t m,
)

-- The trimmed map has no token that the trimmed order has not.
trim_retired-listed :
    (capacity : ℕ) (order : List Token) (m : List (Token × (WindowDisplayId × RetiredReason)))
    → ((x : Text) → occurs Text-discrete x (keys m) ≤ occurs Text-discrete x order)
    → (x : Text)
    → occurs Text-discrete x (keys (trim_retired capacity order m).1)
      ≤ occurs Text-discrete x (trim_retired capacity order m).0
unfolding trim_retired occurs
trim_retired-listed capacity [] m h x = h x
trim_retired-listed capacity (t ∷ order) m h x =
    let rest =
      trim_retired-listed capacity order (remove Text-discrete t m)
        (λ y. ground (arith, h y, occurs-remove Text-discrete y t m)) x in
    ground (arith, rest, h x)

module _ {G : Type 0} where
  retire-listed :
      (token : Token) (id : WindowDisplayId) (reason : RetiredReason) (s : RendererSessions G)
      → Inv s
      → (x : Text)
      → occurs Text-discrete x (keys (retire token id reason s).retired)
        ≤ occurs Text-discrete x (retire token id reason s).retired_order
  unfolding retire occurs
  retire-listed token id reason s h =
      trim_retired-listed (retired_capacity s.limits.max_sessions) (s.retired_order ++ token ∷ [])
        (insert Text-discrete token (id, reason) s.retired)
        (λ x. ground (
          arith,
          h.listed x,
          occurs-insert Text-discrete x token (id, reason) s.retired,
          occurs-append Text-discrete x s.retired_order (token ∷ []),
        ))

  -- A credential goes, with what waits for it.
  abbrev Dropped : Token → WindowDisplayId → RendererSessions G → RendererSessions G → Type 0
  Dropped token id s s' =
      Set (credential_view s) token none (credential_view s')
      × Set (display_view s) id none (display_view s')

  pub retire-Inv :
      (token : Token) (id : WindowDisplayId) (reason : RetiredReason) (s : RendererSessions G)
      → Inv s
      → get token s.credentials ≡ none
      → Inv (retire token id reason s)
  unfolding retire
  retire-Inv token id reason s h e = record {
    matched = h.matched;
    apart = λ t. ground (
      arith,
      h.apart t,
      e,
      present-trim_retired (retired_capacity s.limits.max_sessions) (s.retired_order ++ token ∷ [])
          (insert Text-discrete token (id, reason) s.retired) t,
      lookup-insert Text-discrete t token (id, reason) s.retired,
    );
    once = h.once;
    room = h.room;
    kept =
        length-trim_retired (retired_capacity s.limits.max_sessions) (s.retired_order ++ token ∷ [])
          (insert Text-discrete token (id, reason) s.retired);
    listed = retire-listed token id reason s h;
    stored = omega (
      arith,
      length-keys (retire token id reason s).retired,
      length-le_of_occurs Text-discrete (keys (retire token id reason s).retired)
          (retire token id reason s).retired_order (retire-listed token id reason s h),
      length-trim_retired (retired_capacity s.limits.max_sessions) (s.retired_order ++ token ∷ [])
          (insert Text-discrete token (id, reason) s.retired),
    );
    capacity = h.capacity;
  }

  -- A credential and the display that waits for it are taken out.
  abbrev pub unpaired : Token → WindowDisplayId → RendererSessions G → RendererSessions G
  unpaired token id s = record s {
    credentials = remove Text-discrete token s.credentials;
    displays = remove Text-discrete id s.displays;
  }

  pub unpaired-Inv :
      (token : Token) (id : WindowDisplayId) (g : ℕ) (s : RendererSessions G)
      → Inv s
      → display_view s id ≡ some (token, g)
      → Inv (unpaired token id s)
  unpaired-Inv token id g s h e = record {
    matched =
        drop-Matched (credential_view s) (credential_view (unpaired token id s)) (display_view s)
          (display_view (unpaired token id s)) token id g h.matched e
          (λ x. ground (arith, lookup-remove Text-discrete x token s.credentials))
          (λ y. ground (arith, lookup-remove Text-discrete y id s.displays));
    apart = λ t. ground (arith, h.apart t, lookup-remove Text-discrete t token s.credentials);
    once = λ t. ground (arith, h.once t, occurs-remove Text-discrete t token s.credentials);
    room = omega (arith, h.room, length-remove Text-discrete id s.displays);
    kept = h.kept;
    listed = h.listed;
    stored = h.stored;
    capacity = h.capacity;
  }

  -- A display that waits for nothing is taken out.
  abbrev pub without_display : WindowDisplayId → RendererSessions G → RendererSessions G
  without_display id s = record s { displays = remove Text-discrete id s.displays }

  pub without_display-Inv :
      (id : WindowDisplayId) (s : RendererSessions G)
      → Inv s
      → display_view s id ≡ none
      → Inv (without_display id s)
  without_display-Inv id s h e = record {
    matched =
        ext-Matched (credential_view s) (credential_view (without_display id s)) (display_view s)
          (display_view (without_display id s)) h.matched (λ x. refl)
          (λ y.
            rw (lookup-remove Text-discrete y id s.displays)
              (elim (Text-discrete id y)
                as (λ d. waits (ite d none (get y s.displays)) ≡ waits (get y s.displays)) [
                  | yes p ↦ sym e ∙ ap (display_view s) p
                  | no p ↦ refl
                ]));
    apart = h.apart;
    once = h.once;
    room = omega (arith, h.room, length-remove Text-discrete id s.displays);
    kept = h.kept;
    listed = h.listed;
    stored = h.stored;
    capacity = h.capacity;
  }

  drop_token-Inv :
      (id : WindowDisplayId) (generation : ℕ) (token : Option Token) (s : RendererSessions G)
      → Inv s
      → display_view s id ≡ waits_token generation token
      → Inv (retire_token id token stale (without_display id s))
  drop_token-Inv id generation none s h e = without_display-Inv id s h e
  drop_token-Inv id generation (some token) s h e =
      retire-Inv token id stale (unpaired token id s) (unpaired-Inv token id generation s h e)
        (ground (arith, lookup-remove Text-discrete token token s.credentials))

  -- A session is taken out, and its credential is retired.
  pub drop_session-Inv :
      (id : WindowDisplayId) (display : DisplaySession) (s : RendererSessions G)
      → Inv s
      → get id s.displays ≡ some display
      → Inv (retire_pending id display stale (without_display id s))
  unfolding retire_pending
  drop_session-Inv id display s h e =
      drop_token-Inv id display.generation display.pending_token s h (rw e)

  -- The display of a credential lives, and waits for it.
  pub display_of :
      (token : Token) (c : PendingCredential) (s : RendererSessions G)
      → Inv s
      → get token s.credentials ≡ some c
      → (d : DisplaySession) × (get c.window_display_id s.displays ≡ some d)
        × (d.generation ≡ c.generation)
        × (d.pending_token ≡ some token)
  display_of token c s h e =
      go (get c.window_display_id s.displays)
        (h.matched.0 token c.window_display_id c.generation (rw e))
    where
      go :
          (o : Option DisplaySession)
          → waits o ≡ some (token, c.generation)
          → (d : DisplaySession) × (o ≡ some d)
            × (d.generation ≡ c.generation)
            × (d.pending_token ≡ some token)
      go none q = absurd (none_ne_link (token, c.generation) q)
      go (some d) q =
          let (generation, pending) =
            waits_parts d.generation d.pending_token c.generation token q in
          (d, refl, generation, pending)

  -- A round of the expiry takes the credential and its display.
  expire_one-unpaired :
      (token : Token) (c : PendingCredential) (s : RendererSessions G)
      → Inv s
      → get token s.credentials ≡ some c
      → expire_one (token, c) s
        ≡ retire token c.window_display_id stale (unpaired token c.window_display_id s)
  unfolding expire_one
  expire_one-unpaired token c s h e =
      let (d, at, generation, _) = display_of token c s h e in
      rw (at, generation, same_generation c.generation)

  pub expire_one-Inv :
      (token : Token) (c : PendingCredential) (s : RendererSessions G)
      → Inv s
      → get token s.credentials ≡ some c
      → Inv (expire_one (token, c) s)
  expire_one-Inv token c s h e = rw (expire_one-unpaired token c s h e) (
      retire-Inv token c.window_display_id stale (unpaired token c.window_display_id s)
        (unpaired-Inv token c.window_display_id c.generation s h
          (h.matched.0 token c.window_display_id c.generation (rw e)))
        (ground (arith, lookup-remove Text-discrete token token s.credentials)))
