-- ===== src/Session/Credentials.antt =====
-- src/render.rs: the one-time credentials, issued, retired and expired.
use tmnotify.Base.{
  ℕ, zero, suc, ◌+◌, ◌-◌, ◌*◌, ◌/◌, ◌%◌, ◌^◌, min, Bool, false, ◌||◌, Option, none, some, List, [],
  ◌∷◌, ◌++◌, ltb, leb, ◌==◌, if◌then◌else◌, ite, length, is_some,
}
use tmnotify.Base.Map.{lookup, insert, remove}
use tmnotify.Notification.Ingress.{Text}
use tmnotify.Notification.Source.{Text-discrete}
use tmnotify.Session.State.{
  SessionError, credential_collision, unknown_credential, mismatched_credential, stale_credential,
  duplicate_redemption, Result, done, failed, WindowDisplayId, Token, PendingCredential,
  RetiredReason, consumed, stale, DisplaySession, RendererSessions,
}

-- A map from texts
abbrev pub get : {V : Type 0} → Text → List (Text × V) → Option V
get k m = lookup Text-discrete k m

abbrev pub usize_max : ℕ
usize_max = 2 ^ 64 - 1

-- `max_sessions.saturating_mul(2)`
abbrev pub retired_capacity : ℕ → ℕ
retired_capacity max_sessions = min (max_sessions * 2) usize_max

abbrev pub Retired : Type 0
Retired = List Token × List (Token × (WindowDisplayId × RetiredReason))

-- `while self.retired_order.len() > capacity`
unfoldable pub trim_retired :
    ℕ → List Token → List (Token × (WindowDisplayId × RetiredReason)) → Retired
trim_retired capacity [] m = ([], m)
trim_retired capacity (oldest ∷ order) m =
    let rest = trim_retired capacity order (remove Text-discrete oldest m) in
    if ltb capacity (length (oldest ∷ order)) then rest else (oldest ∷ order, m)

-- `encode_hex`
abbrev pub hex_digit : ℕ → ℕ
hex_digit n = if ltb n 10 then b'0' + n else b'a' + (n - 10)

unfoldable pub encode_hex : List ℕ → Text
encode_hex [] = []
encode_hex (b ∷ bytes) = hex_digit (b / 16) ∷ hex_digit (b % 16) ∷ encode_hex bytes

abbrev pub token_generation_attempts : ℕ
token_generation_attempts = 4

-- `display.generation == generation`, if there is a display
abbrev pub has_generation : ℕ → Option DisplaySession → Bool
has_generation generation none = false
has_generation generation (some display) = display.generation == generation

-- The entries whose time is over, in the order of the map
unfoldable pub expired_entries :
    ℕ → List (Token × PendingCredential) → List (Token × PendingCredential)
expired_entries now [] = []
expired_entries now ((token, c) ∷ m) =
    let rest = expired_entries now m in if leb c.expires_at now then (token, c) ∷ rest else rest

-- The `match` on the entry of the token
abbrev pub retired_as : Option (WindowDisplayId × RetiredReason) → WindowDisplayId → SessionError
retired_as none id = unknown_credential
retired_as (some (expected, reason)) id =
    ite (Text-discrete expected id)
      (elim reason [ consumed ↦ duplicate_redemption | stale ↦ stale_credential ])
      mismatched_credential

module _ {G : Type 0} where
  unfoldable pub retire :
      Token → WindowDisplayId → RetiredReason → RendererSessions G → RendererSessions G
  retire token id reason s =
      let (order, m) =
        trim_retired (retired_capacity s.limits.max_sessions) (s.retired_order ++ token ∷ [])
          (insert Text-discrete token (id, reason) s.retired) in
      record s { retired_order = order; retired = m }

  abbrev pub retire_token :
      WindowDisplayId → Option Token → RetiredReason → RendererSessions G → RendererSessions G
  retire_token id none reason s = s
  retire_token id (some token) reason s =
      retire token id reason (record s { credentials = remove Text-discrete token s.credentials })

  unfoldable pub retire_pending :
      WindowDisplayId → DisplaySession → RetiredReason → RendererSessions G → RendererSessions G
  retire_pending id display reason s = retire_token id display.pending_token reason s

  -- A round of the loop of `expire_credentials`
  unfoldable pub expire_one : Token × PendingCredential → RendererSessions G → RendererSessions G
  expire_one (token, c) s =
      let live = has_generation c.generation (get c.window_display_id s.displays) in
      retire token c.window_display_id stale (record s {
        credentials = remove Text-discrete token s.credentials;
        displays = if live then remove Text-discrete c.window_display_id s.displays else s.displays;
      })

  unfoldable pub expire_all :
      List (Token × PendingCredential) → RendererSessions G → RendererSessions G
  expire_all [] s = s
  expire_all (entry ∷ entries) s = expire_all entries (expire_one entry s)

  unfoldable pub expire_credentials : ℕ → RendererSessions G → RendererSessions G
  expire_credentials now s = expire_all (expired_entries now s.credentials) s

  unfoldable pub retired_error : RendererSessions G → WindowDisplayId → Token → SessionError
  retired_error s id token = retired_as (get token s.retired) id

  -- A round of `unique_token`, given the rounds after it.
  abbrev pub try_bytes :
      Result (List ℕ)
      → Result Token × RendererSessions G
      → RendererSessions G
      → Result Token × RendererSessions G
  try_bytes (failed e) again s = (failed e, s)
  try_bytes (done bytes) again s =
      if is_some (get (encode_hex bytes) s.credentials)
        || is_some (get (encode_hex bytes) s.retired)
      then again
      else (done (encode_hex bytes), s)

  -- The generator draws 32 random bytes, or fails.
  module _ (generate : G → Result (List ℕ) × G) where
    -- The loop of `unique_token`, given the number of attempts that are left.
    unfoldable pub try_token : ℕ → RendererSessions G → Result Token × RendererSessions G
    try_token zero s = (failed credential_collision, s)
    try_token (suc attempts) s =
        let (bytes, g) = generate s.generator in
        let s' : RendererSessions G = record s { generator = g } in
        try_bytes bytes (try_token attempts s') s'

    unfoldable pub unique_token : RendererSessions G → Result Token × RendererSessions G
    unique_token s = try_token token_generation_attempts s
