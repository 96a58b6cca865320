-- ===== src/Notification/Ingress.antt =====
-- src/notification.rs: the errors of ingress, the size limits, and text measured in bytes.
use Prim.Native.String.{String}
use tmnotify.Base.{ℕ, ◌+◌, ◌*◌, List, [], ◌∷◌, ltb, if◌then◌else◌}

-- A `&str` is the list of its code points.
abbrev pub Text : Type 0
Text = List ℕ

abbrev pub max_ipc_request_bytes : ℕ
max_ipc_request_bytes = 64 * 1024

abbrev pub max_title_bytes : ℕ
max_title_bytes = 1024

abbrev pub max_body_bytes : ℕ
max_body_bytes = 48 * 1024

abbrev pub max_key_bytes : ℕ
max_key_bytes = 1024

abbrev pub max_source_id_bytes : ℕ
max_source_id_bytes = 256

abbrev pub max_source_value_bytes : ℕ
max_source_value_bytes = 1024

abbrev pub max_cwd_bytes : ℕ
max_cwd_bytes = 4096

abbrev pub max_metadata_value_bytes : ℕ
max_metadata_value_bytes = 1024

pub data IngressError : Type 0 where
  request_too_large : ℕ → ℕ → IngressError
  value_too_large : String → ℕ → ℕ → IngressError
  empty_value : String → IngressError
  invalid_tmux_id : String → IngressError
  attention_requires_source : IngressError
  invalid_notification_id : IngressError

pub data Result {ℓ} (A : Type ℓ) : Type ℓ where
  ok : A → Result A
  err : IngressError → Result A

infixl 5 ◌>>=◌
abbrev pub ◌>>=◌ {ℓ κ} : {A : Type ℓ} {B : Type κ} → Result A → (A → Result B) → Result B
ok a >>= f = f a
err e >>= f = err e

-- The length of a code point in UTF-8.
abbrev pub utf8_len : ℕ → ℕ
utf8_len c = if ltb c 0x80 then 1 else if ltb c 0x800 then 2 else if ltb c 0x1_0000 then 3 else 4

-- `str::len`
unfoldable pub byte_len : Text → ℕ
byte_len [] = 0
byte_len (c ∷ cs) = utf8_len c + byte_len cs

-- The frame is given by its length in bytes.
unfoldable pub validate_ipc_request_size : ℕ → Result (Unit {0})
validate_ipc_request_size len =
    if ltb max_ipc_request_bytes len
    then err (request_too_large len max_ipc_request_bytes)
    else ok tt
