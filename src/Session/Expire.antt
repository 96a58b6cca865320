-- ===== src/Session/Expire.antt =====
-- The expiry of credentials.
use tmnotify.Base.{
  ℕ, suc, ◌≤◌, ◌≡◌, refl, sym, ◌∙◌, ◌⊎◌, Option, none, some, List, [], ◌∷◌, leb, ite, if◌then◌else◌,
  arith, Bool-cases, Option-cases, inl, inr,
}
use tmnotify.Base.Map.{lookup, remove, lookup-remove}
use tmnotify.Base.Keys.{keys, occurs, present-lookup}
use tmnotify.Notification.Ingress.{Text}
use tmnotify.Notification.Source.{Text-discrete}
use tmnotify.Session.State.{Token, PendingCredential, RendererSessions}
use tmnotify.Session.Credentials.{
  get, retire, expire_one, expire_all, expired_entries, expire_credentials, has_generation,
}
use tmnotify.Session.Invariant.{Inv, expire_one-Inv}

-- A credential whose time is over, and one whose time is not
abbrev pub overdue : ℕ → Option PendingCredential → Option PendingCredential
overdue now none = none
overdue now (some c) = if leb c.expires_at now then some c else none

abbrev pub current : ℕ → Option PendingCredential → Option PendingCredential
current now none = none
current now (some c) = if leb c.expires_at now then none else some c

-- The second one, if there is no first one
abbrev unless : Option PendingCredential → Option PendingCredential → Option PendingCredential
unless none o = o
unless (some c) o = none

occurs-expired_entries :
    (now : ℕ) (m : List (Token × PendingCredential)) (t : Text)
    → occurs Text-discrete t (keys (expired_entries now m)) ≤ occurs Text-discrete t (keys m)
unfolding expired_entries keys occurs
occurs-expired_entries now [] t = omega arith
occurs-expired_entries now ((k, c) ∷ m) t = ground (arith, occurs-expired_entries now m t)

absent :
    {V : Type 0} (t : Text) (m : List (Text × V))
    → occurs Text-discrete t (keys m) ≡ 0
    → get t m ≡ none
absent t m e = elim (Option-cases (get t m)) [
  | inl at ↦ at
  | inr (v, at) ↦ absurd (ground (arith, present-lookup Text-discrete t m))
]

get-expired_entries :
    (now : ℕ) (m : List (Token × PendingCredential)) (t : Text)
    → occurs Text-discrete t (keys m) ≤ 1
    → get t (expired_entries now m) ≡ overdue now (get t m)
unfolding expired_entries lookup occurs keys
get-expired_entries now [] t h = refl
get-expired_entries now ((k, c) ∷ m) t h =
    elim (Text-discrete k t)
        as (λ d.
          ite d (suc (occurs Text-discrete t (keys m))) (occurs Text-discrete t (keys m)) ≤ 1
          → get t (
              if leb c.expires_at now
              then (k, c) ∷ expired_entries now m
              else expired_entries now m)
            ≡ overdue now (ite d (some c) (get t m))) [
              | yes p ↦ λ q. ground (
                arith,
                p,
                absent t (expired_entries now m)
                    (ground (arith, q, occurs-expired_entries now m t)),
              )
              | no p ↦ λ q. ground (arith, p, get-expired_entries now m t q)
            ]
      h

was_there :
    (now : ℕ) (o : Option PendingCredential) (c : PendingCredential)
    → overdue now o ≡ some c
    → o ≡ some c
was_there now none c e = e
was_there now (some d) c e = ground (arith, e)

remaining : (now : ℕ) (o : Option PendingCredential) → unless (overdue now o) o ≡ current now o
remaining now none = refl
remaining now (some c) = ground arith

-- The credential that goes first
dropped :
    (token : Token) (c : PendingCredential) (t : Text)
    (entries m : List (Token × PendingCredential))
    → unless (get t entries) (get t (remove Text-discrete token m))
      ≡ unless (ite (Text-discrete token t) (some c) (get t entries)) (get t m)
dropped token c t entries m = elim (Option-cases (get t entries)) [
  | inl e ↦ ground (arith, e, lookup-remove Text-discrete t token m)
  | inr (d, e) ↦ ground (arith, e)
]

module _ {G : Type 0} where
  -- The round of one credential, seen from the rest of the state.
  expire_one_effect :
      (token : Token) (c : PendingCredential) (s : RendererSessions G)
      → ((expire_one (token, c) s).credentials ≡ remove Text-discrete token s.credentials)
        × ((expire_one (token, c) s).limits ≡ s.limits)
        × ((expire_one (token, c) s).channels ≡ s.channels)
        × ((expire_one (token, c) s).next_channel ≡ s.next_channel)
        × ((expire_one (token, c) s).generator ≡ s.generator)
        × ((expire_one (token, c) s).next_generation ≡ s.next_generation)
  unfolding expire_one retire
  expire_one_effect token c s = (refl, refl, refl, refl, refl, refl)

  -- A display goes or stays as it is.
  displays-expire_one :
      (token : Token) (c : PendingCredential) (s : RendererSessions G) (i : Text)
      → (get i (expire_one (token, c) s).displays ≡ none)
        ⊎ (get i (expire_one (token, c) s).displays ≡ get i s.displays)
  unfolding expire_one retire
  displays-expire_one token c s i =
      elim (Bool-cases (has_generation c.generation (get c.window_display_id s.displays))) [
        | inl e ↦ ground (arith, e, lookup-remove Text-discrete i c.window_display_id s.displays)
        | inr e ↦ inr (rw e)
      ]

  -- What an expiry of `entries` makes of the sessions.
  record Expired (entries : List (Token × PendingCredential)) (s s' : RendererSessions G)
      : Type 0 where
    pub inv : Inv s'
    pub credentials :
        (t : Text) → get t s'.credentials ≡ unless (get t entries) (get t s.credentials)
    pub displays : (i : Text) → (get i s'.displays ≡ none) ⊎ (get i s'.displays ≡ get i s.displays)
    pub limits : s'.limits ≡ s.limits

  expire_all-Expired :
      (entries : List (Token × PendingCredential)) (s : RendererSessions G)
      → Inv s
      → ((t : Text) → occurs Text-discrete t (keys entries) ≤ 1)
      → ((t : Text) (c : PendingCredential) → get t entries ≡ some c → get t s.credentials ≡ some c)
      → Expired entries s (expire_all entries s)
  unfolding expire_all lookup occurs keys
  expire_all-Expired [] s h o i = record {
    inv = h;
    credentials = λ t. refl;
    displays = λ i. inr refl;
    limits = refl;
  }
  expire_all-Expired ((token, c) ∷ entries) s h o i =
      let at : get token s.credentials ≡ some c = i token c (ground arith) in
      let s1 : RendererSessions G = expire_one (token, c) s in
      let effect = expire_one_effect token c s in
      let rest =
        expire_all-Expired entries s1 (expire_one-Inv token c s h at) (λ t. ground (arith, o t))
          (λ t c' e. rw effect.0 (
            ground (
              arith,
              lookup-remove Text-discrete t token s.credentials,
              i t c',
              o t,
              present-lookup Text-discrete t entries,
            ))) in
      record {
        inv = rest.inv;
        credentials =
            λ t. rest.credentials t ∙ rw effect.0 (dropped token c t entries s.credentials);
        displays = λ i. elim (rest.displays i) [
          | inl e ↦ inl e
          | inr e ↦ elim (displays-expire_one token c s i) [
            | inl f ↦ inl (e ∙ f)
            | inr f ↦ inr (e ∙ f)
          ]
        ];
        limits = rest.limits ∙ effect.1;
      }

  -- `expire_credentials` keeps the invariant; it takes the credentials whose time is over, and leaves
  -- no display other than it was.
  pub record Current (now : ℕ) (s s' : RendererSessions G) : Type 0 where
    pub inv : Inv s'
    pub credentials : (t : Text) → get t s'.credentials ≡ current now (get t s.credentials)
    pub displays : (i : Text) → (get i s'.displays ≡ none) ⊎ (get i s'.displays ≡ get i s.displays)
    pub limits : s'.limits ≡ s.limits

  pub expire_credentials-Current :
      (now : ℕ) (s : RendererSessions G) → Inv s → Current now s (expire_credentials now s)
  unfolding expire_credentials
  expire_credentials-Current now s h =
      let entries : List (Token × PendingCredential) = expired_entries now s.credentials in
      let found = λ (t : Text). get-expired_entries now s.credentials t (h.once t) in
      let all =
        expire_all-Expired entries s h
          (λ t. omega (arith, h.once t, occurs-expired_entries now s.credentials t))
          (λ t c e. was_there now (get t s.credentials) c (sym (found t) ∙ e)) in
      record {
        inv = all.inv;
        credentials = λ t. all.credentials t ∙ (rw (found t) (remaining now (get t s.credentials)));
        displays = all.displays;
        limits = all.limits;
      }
