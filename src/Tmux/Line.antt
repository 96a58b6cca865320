-- ===== src/Tmux/Line.antt =====
-- src/tmux/control.rs: the fields of a control line, and what the standard library makes of its text.
use tmnotify.Base.{
  ℕ, ◌+◌, ◌-◌, ◌*◌, ◌^◌, Bool, true, false, ◌&&◌, ◌||◌, not, Option, none, some, List, [], ◌∷◌,
  ◌++◌, ltb, ◌==◌, if◌then◌else◌,
}
use tmnotify.Notification.Ingress.{Text}
use tmnotify.Notification.Plain.{within, is_empty, is_ascii_digit}
use tmnotify.Notification.Source.{Text-discrete}
use tmnotify.Notification.Record.{eq}

-- `str::starts_with`
unfoldable pub starts_with : Text → Text → Bool
starts_with [] line = true
starts_with (p ∷ prefix) [] = false
starts_with (p ∷ prefix) (c ∷ line) = c == p && starts_with prefix line

-- `char::is_whitespace`
unfoldable pub is_whitespace : ℕ → Bool
is_whitespace c =
    within 9 13 c
    || (c == 0x20
        || (c == 0x85
            || (c == 0xa0
                || (c == 0x1680
                    || (within 0x2000 0x200a c
                        || (within 0x2028 0x2029 c
                            || (c == 0x202f || (c == 0x205f || c == 0x3000))))))))

-- `str::split_whitespace`, with the word that was begun
unfoldable pub split_words : Text → Text → List Text
split_words word [] = if is_empty word then [] else word ∷ []
split_words word (c ∷ line) =
    let longer = split_words (word ++ c ∷ []) line in
    let after = split_words [] line in
    if not (is_whitespace c) then longer else if is_empty word then after else word ∷ after

-- `u64::from_str`, after the sign
unfoldable pub parse_digits : ℕ → Text → Option ℕ
parse_digits n [] = some n
parse_digits n (c ∷ digits) =
    let next = n * 10 + (c - b'0') in
    let rest = parse_digits next digits in
    if is_ascii_digit c && ltb next (2 ^ 64) then rest else none

unfoldable pub parse_u64 : Text → Option ℕ
parse_u64 [] = none
parse_u64 (c ∷ text) =
    if c == b'+'
    then (if is_empty text then none else parse_digits 0 text)
    else parse_digits 0 (c ∷ text)

-- `line.split_once(' ').map_or(line, |(name, _)| name)`
unfoldable pub first_word : Text → Text
first_word [] = []
first_word (c ∷ line) = if c == b' ' then [] else c ∷ first_word line

abbrev pub begin_prefix : Text
begin_prefix = b'%' ∷ b'b' ∷ b'e' ∷ b'g' ∷ b'i' ∷ b'n' ∷ b' ' ∷ []

abbrev pub end_prefix : Text
end_prefix = b'%' ∷ b'e' ∷ b'n' ∷ b'd' ∷ b' ' ∷ []

abbrev pub error_prefix : Text
error_prefix = b'%' ∷ b'e' ∷ b'r' ∷ b'r' ∷ b'o' ∷ b'r' ∷ b' ' ∷ []

abbrev pub exit_line : Text
exit_line = b'%' ∷ b'e' ∷ b'x' ∷ b'i' ∷ b't' ∷ []

-- The notifications that mean a change of the topology
abbrev pub topology_notifications : List Text
topology_notifications =
    (b'%' ∷ b'c' ∷ b'l' ∷ b'i' ∷ b'e' ∷ b'n' ∷ b't' ∷ b'-' ∷ b'a' ∷ b't' ∷ b't' ∷ b'a' ∷ b'c' ∷ b'h'
      ∷ b'e' ∷ b'd' ∷ [])
    ∷ (b'%' ∷ b'c' ∷ b'l' ∷ b'i' ∷ b'e' ∷ b'n' ∷ b't' ∷ b'-' ∷ b'd' ∷ b'e' ∷ b't' ∷ b'a' ∷ b'c'
        ∷ b'h' ∷ b'e' ∷ b'd' ∷ [])
    ∷ (b'%' ∷ b'c' ∷ b'l' ∷ b'i' ∷ b'e' ∷ b'n' ∷ b't' ∷ b'-' ∷ b's' ∷ b'e' ∷ b's' ∷ b's' ∷ b'i'
        ∷ b'o' ∷ b'n' ∷ b'-' ∷ b'c' ∷ b'h' ∷ b'a' ∷ b'n' ∷ b'g' ∷ b'e' ∷ b'd' ∷ [])
    ∷ (b'%' ∷ b'l' ∷ b'a' ∷ b'y' ∷ b'o' ∷ b'u' ∷ b't' ∷ b'-' ∷ b'c' ∷ b'h' ∷ b'a' ∷ b'n' ∷ b'g'
        ∷ b'e' ∷ [])
    ∷ (b'%' ∷ b's' ∷ b'e' ∷ b's' ∷ b's' ∷ b'i' ∷ b'o' ∷ b'n' ∷ b'-' ∷ b'c' ∷ b'h' ∷ b'a' ∷ b'n'
        ∷ b'g' ∷ b'e' ∷ b'd' ∷ [])
    ∷ (b'%' ∷ b's' ∷ b'e' ∷ b's' ∷ b's' ∷ b'i' ∷ b'o' ∷ b'n' ∷ b'-' ∷ b'w' ∷ b'i' ∷ b'n' ∷ b'd'
        ∷ b'o' ∷ b'w' ∷ b'-' ∷ b'c' ∷ b'h' ∷ b'a' ∷ b'n' ∷ b'g' ∷ b'e' ∷ b'd' ∷ [])
    ∷ (b'%' ∷ b's' ∷ b'e' ∷ b's' ∷ b's' ∷ b'i' ∷ b'o' ∷ b'n' ∷ b's' ∷ b'-' ∷ b'c' ∷ b'h' ∷ b'a'
        ∷ b'n' ∷ b'g' ∷ b'e' ∷ b'd' ∷ [])
    ∷ (b'%' ∷ b'u' ∷ b'n' ∷ b'l' ∷ b'i' ∷ b'n' ∷ b'k' ∷ b'e' ∷ b'd' ∷ b'-' ∷ b'w' ∷ b'i' ∷ b'n'
        ∷ b'd' ∷ b'o' ∷ b'w' ∷ b'-' ∷ b'a' ∷ b'd' ∷ b'd' ∷ [])
    ∷ (b'%' ∷ b'u' ∷ b'n' ∷ b'l' ∷ b'i' ∷ b'n' ∷ b'k' ∷ b'e' ∷ b'd' ∷ b'-' ∷ b'w' ∷ b'i' ∷ b'n'
        ∷ b'd' ∷ b'o' ∷ b'w' ∷ b'-' ∷ b'c' ∷ b'l' ∷ b'o' ∷ b's' ∷ b'e' ∷ [])
    ∷ (b'%' ∷ b'w' ∷ b'i' ∷ b'n' ∷ b'd' ∷ b'o' ∷ b'w' ∷ b'-' ∷ b'a' ∷ b'd' ∷ b'd' ∷ [])
    ∷ (b'%' ∷ b'w' ∷ b'i' ∷ b'n' ∷ b'd' ∷ b'o' ∷ b'w' ∷ b'-' ∷ b'c' ∷ b'l' ∷ b'o' ∷ b's' ∷ b'e'
        ∷ [])
    ∷ (b'%' ∷ b'w' ∷ b'i' ∷ b'n' ∷ b'd' ∷ b'o' ∷ b'w' ∷ b'-' ∷ b'p' ∷ b'a' ∷ b'n' ∷ b'e' ∷ b'-'
        ∷ b'c' ∷ b'h' ∷ b'a' ∷ b'n' ∷ b'g' ∷ b'e' ∷ b'd' ∷ [])
    ∷ (b'%' ∷ b'w' ∷ b'i' ∷ b'n' ∷ b'd' ∷ b'o' ∷ b'w' ∷ b'-' ∷ b'r' ∷ b'e' ∷ b'n' ∷ b'a' ∷ b'm'
        ∷ b'e' ∷ b'd' ∷ [])
    ∷ []

unfoldable pub is_among : Text → List Text → Bool
is_among name [] = false
is_among name (t ∷ ts) = eq Text-discrete name t || is_among name ts
