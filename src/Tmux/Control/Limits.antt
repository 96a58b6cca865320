-- ===== src/Tmux/Control/Limits.antt =====
-- The bounds of the output of a command.
use tmnotify.Base.{
  ℕ, ◌+◌, ◌≤◌, ◌≡◌, refl, ◌∙◌, ◌||◌, Option, none, some, is_some, List, [], ◌∷◌, ◌++◌, ltb, leb,
  ◌==◌, length, length-append, arith, Bool-cases, Option-cases, inl, inr,
}
use tmnotify.Notification.Ingress.{Text, byte_len}
use tmnotify.Tmux.Line.{starts_with, begin_prefix, end_prefix, error_prefix}
use tmnotify.Tmux.Control.{
  CommandTicket, Active, ControlParser, Received, good, bad, frame_command, begin_pending, begin,
  finish_active, finish, output_line, receive, translate_notification, max_command_output_lines,
  max_command_output_bytes,
}

-- Within the limits of the output, and with the count of its bytes
abbrev pub total_bytes : List Text → ℕ
total_bytes [] = 0
total_bytes (line ∷ lines) = byte_len line + total_bytes lines

abbrev pub IsBoundedActive : Option Active → Type 0
IsBoundedActive none = Unit
IsBoundedActive (some a) =
    (length a.output ≤ max_command_output_lines)
    × (a.output_bytes ≤ max_command_output_bytes)
    × (total_bytes a.output ≡ a.output_bytes)

total_bytes-append :
    (lines : List Text) (line : Text)
    → total_bytes (lines ++ line ∷ []) ≡ total_bytes lines + byte_len line
total_bytes-append [] line = omega arith
total_bytes-append (l ∷ lines) line = omega (arith, total_bytes-append lines line)

output_line-IsBounded :
    (line : Text) (a : Option Active) (p : ControlParser)
    → IsBoundedActive p.active
    → IsBoundedActive a
    → IsBoundedActive (output_line line a p).1.active
output_line-IsBounded line none p h k = h
output_line-IsBounded line (some a) p h k =
    elim (Bool-cases (
      leb max_command_output_lines (length a.output)
      || ltb max_command_output_bytes (a.output_bytes + byte_len line))) [
        | inl full ↦ rw full h
        | inr fits ↦ rw fits (
          ground (arith, fits, length-append a.output (line ∷ [])),
          ground (arith, fits),
          total_bytes-append a.output line ∙ ground (arith, k),
        )
      ]

begin_pending-IsBounded :
    (number : Received ℕ) (tickets : List CommandTicket) (p : ControlParser)
    → IsBoundedActive p.active
    → IsBoundedActive (begin_pending number tickets p).1.active
begin_pending-IsBounded (bad e) tickets p h = h
begin_pending-IsBounded (good n) [] p h = h
begin_pending-IsBounded (good n) (t ∷ tickets) p h = (omega arith, omega arith, refl)

finish_active-IsBounded :
    (line : Text) (number : Received ℕ) (a : Option Active) (p : ControlParser)
    → IsBoundedActive p.active
    → IsBoundedActive (finish_active line number a p).1.active
finish_active-IsBounded line (bad e) a p h = h
finish_active-IsBounded line (good n) none p h = h
finish_active-IsBounded line (good n) (some a) p h = elim (Bool-cases (a.tmux_command == n)) [
  | inl same ↦ rw same tt
  | inr other ↦ rw other tt
]

pub receive-IsBounded :
    (line : Text) (p : ControlParser)
    → IsBoundedActive p.active
    → IsBoundedActive (receive line p).1.active
unfolding receive begin finish
receive-IsBounded line p h = elim (Bool-cases (starts_with begin_prefix line)) [
  | inl begins ↦ rw begins (elim (Bool-cases (is_some p.active)) [
    | inl nested ↦ rw nested h
    | inr free ↦ rw free (begin_pending-IsBounded (frame_command line) p.pending p h)
  ])
  | inr text ↦ elim (Bool-cases (starts_with end_prefix line || starts_with error_prefix line)) [
    | inl ends ↦ rw (text, ends) (finish_active-IsBounded line (frame_command line) p.active p h)
    | inr other ↦
        rw (text, other)
          (elim (Option-cases (translate_notification line)) [
            | inl output ↦ rw output (output_line-IsBounded line p.active p h h)
            | inr (e, note) ↦ rw note h
          ])
  ]
]
