-- ===== src/Notification/Plain.antt =====
-- src/notification.rs: `normalize_plain_text` and what it calls, and the bounded constructors of
-- text. A `Peekable<Chars>` is the text that is left; a function that advances it returns the rest.
pub mod Safe
pub mod Bounded
use Prim.Native.String.{String}
use tmnotify.Base.{
  ℕ, zero, suc, ◌+◌, Bool, true, false, not, ◌&&◌, ◌||◌, List, [], ◌∷◌, ◌++◌, ltb, leb, ◌==◌,
  if◌then◌else◌, length, drop,
}
use tmnotify.Notification.Ingress.{
  Text, Result, ok, err, value_too_large, empty_value, invalid_tmux_id, ◌>>=◌, byte_len,
  max_source_id_bytes,
}

abbrev pub within : ℕ → ℕ → ℕ → Bool
within lo hi c = leb lo c && leb c hi

-- `char::is_control`: the category Cc.
abbrev pub is_control : ℕ → Bool
is_control c = ltb c 32 || within 0x7f 0x9f c

unfoldable pub is_display_control : ℕ → Bool
is_display_control c =
    is_control c
    || (c == 0x61c
        || (c == 0xad
            || (c == 0x200b
                || (within 0x200e 0x200f c
                    || (within 0x202a 0x202e c
                        || (within 0x2060 0x2064 c
                            || (within 0x2066 0x206f c
                                || (c == 0xfeff || within 0xfff9 0xfffb c))))))))

-- `chars.peek() == Some(&c)`
abbrev peek_is : ℕ → Text → Bool
peek_is c [] = false
peek_is c (x ∷ xs) = x == c

unfoldable pub consume_csi : Text → Text
consume_csi [] = []
consume_csi (c ∷ cs) = if within b'@' b'~' c then cs else consume_csi cs

unfoldable pub consume_osc : Text → Text
consume_osc [] = []
consume_osc (c ∷ cs) =
    if c == 0x07 then cs else if c == 0x1b && peek_is b'\\' cs then drop 1 cs else consume_osc cs

-- `while matches!(chars.peek(), Some(value) if (' '..='/').contains(value))`
unfoldable pub skip_intermediates : Text → Text
skip_intermediates [] = []
skip_intermediates (c ∷ cs) = if within b' ' b'/' c then skip_intermediates cs else c ∷ cs

-- `if matches!(chars.peek(), Some(value) if ('0'..='~').contains(value))`
unfoldable pub skip_final : Text → Text
skip_final [] = []
skip_final (c ∷ cs) = if within b'0' b'~' c then cs else c ∷ cs

unfoldable pub consume_ansi_after_escape : Text → Bool × Text
unfolding consume_csi consume_osc skip_intermediates skip_final
consume_ansi_after_escape [] = (false, [])
consume_ansi_after_escape (c ∷ cs) =
    if c == b'['
    then (true, consume_csi cs)
    else if c == b']'
    then (true, consume_osc cs)
    else if within b' ' b'/' c
    then (true, skip_final (skip_intermediates cs))
    else (false, c ∷ cs)

abbrev pub replacement : ℕ
replacement = 0xfffd

-- TAB_WIDTH blanks
abbrev pub tab_spaces : Text
tab_spaces = b' ' ∷ b' ' ∷ b' ' ∷ b' ' ∷ []

abbrev skip_newline : Text → Text
skip_newline [] = []
skip_newline (c ∷ cs) = if c == 0x0a then cs else c ∷ cs

abbrev pub after_escape : Bool × Text → Text × Text
after_escape (true, rest) = ([], rest)
after_escape (false, rest) = (replacement ∷ [], rest)

-- One round of the loop on the character `c` that `chars.next()` returned: what is pushed to the
-- result, and what is left.
unfoldable pub normalize_char : ℕ → Text → Text × Text
unfolding consume_ansi_after_escape is_display_control
normalize_char c cs =
    if c == 0x0d
    then (0x0a ∷ [], skip_newline cs)
    else if c == 0x0a
    then (0x0a ∷ [], cs)
    else if c == 0x09
    then (tab_spaces, cs)
    else if c == 0x1b
    then after_escape (consume_ansi_after_escape cs)
    else if c == 0x9b
    then ([], consume_csi cs)
    else if c == 0x9d
    then ([], consume_osc cs)
    else if is_display_control c
    then (replacement ∷ [], cs)
    else (c ∷ [], cs)

-- The loop, with fuel for its rounds.
unfoldable pub normalize_loop : ℕ → Text → Text
unfolding normalize_char
normalize_loop zero cs = []
normalize_loop (suc fuel) [] = []
normalize_loop (suc fuel) (c ∷ cs) =
    let (out, rest) = normalize_char c cs in out ++ normalize_loop fuel rest

unfoldable pub normalize_plain_text : Text → Text
unfolding normalize_loop
normalize_plain_text input = normalize_loop (length input) input

unfoldable pub normalize_bounded : String → Text → ℕ → Result Text
normalize_bounded field value maximum =
    let normalized = normalize_plain_text value in
    if ltb maximum (byte_len normalized)
    then err (value_too_large field (byte_len normalized) maximum)
    else ok normalized

abbrev pub is_empty : Text → Bool
is_empty [] = true
is_empty (c ∷ cs) = false

unfoldable pub normalize_required : String → Text → ℕ → Result Text
normalize_required field value maximum = do
  normalized ← normalize_bounded field value maximum
  if is_empty normalized then err (empty_value field) else ok normalized

abbrev pub is_ascii_digit : ℕ → Bool
is_ascii_digit c = within b'0' b'9' c

unfoldable pub all_digits : Text → Bool
all_digits [] = true
all_digits (c ∷ cs) = is_ascii_digit c && all_digits cs

-- `value.strip_prefix(prefix)`, and the test of the suffix.
stable_suffix : String → Text → ℕ → Text → Result Text
stable_suffix field value prefix [] = err (invalid_tmux_id field)
stable_suffix field value prefix (c ∷ suffix) =
    if c == prefix && (not (is_empty suffix) && all_digits suffix)
    then ok value
    else err (invalid_tmux_id field)

unfoldable pub stable_tmux_id : String → Text → ℕ → Result Text
unfolding stable_suffix
stable_tmux_id field value prefix =
    if ltb max_source_id_bytes (byte_len value)
    then err (value_too_large field (byte_len value) max_source_id_bytes)
    else stable_suffix field value prefix value
