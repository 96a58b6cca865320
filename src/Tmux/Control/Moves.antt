-- ===== src/Tmux/Control/Moves.antt =====
-- A line moves tickets from what waits to the results.
use tmnotify.Base.{
  ℕ, ◌+◌, ◌≡◌, refl, ◌||◌, Option, none, some, is_some, List, [], ◌∷◌, ◌++◌, ltb, leb, ◌==◌,
  if◌then◌else◌, length, Bool-cases, inl, inr,
}
use tmnotify.Notification.Ingress.{Text, byte_len}
use tmnotify.Tmux.Line.{starts_with, begin_prefix, end_prefix, error_prefix}
use tmnotify.Tmux.Control.{
  CommandTicket, ControlItem, command, event, Event, Active, ControlParser, Received, good, bad,
  nested_begin, frame_command, begin_pending, begin, finish_active, finish, output_line, notified,
  receive, translate_notification, max_command_output_lines, max_command_output_bytes,
}

-- The tickets of the commands among the items
unfoldable pub tickets_of : List ControlItem → List CommandTicket
tickets_of [] = []
tickets_of (command r ∷ items) = r.ticket ∷ tickets_of items
tickets_of (event e ∷ items) = tickets_of items

abbrev pub ticket_of : Option Active → List CommandTicket
ticket_of none = []
ticket_of (some a) = a.ticket ∷ []

-- The commands that have no result, in their order: the active one, and the pending ones.
abbrev pub waiting : ControlParser → List CommandTicket
waiting p = ticket_of p.active ++ p.pending

-- An accepted line moves tickets from what waits to the results, from the front.
abbrev pub Moves : ControlParser → Received (List ControlItem) × ControlParser → Type 0
Moves p (bad e, q) = Unit
Moves p (good items, q) = tickets_of items ++ waiting q ≡ waiting p

begin-Moves : (line : Text) (p : ControlParser) → Moves p (begin line p)
unfolding begin tickets_of
begin-Moves line p = go p.active p.pending (frame_command line)
  where
    go :
        (a : Option Active) (tickets : List CommandTicket) (number : Received ℕ)
        → let q : ControlParser = record { pending = tickets; active = a } in
          Moves q (if is_some a then (bad nested_begin, q) else begin_pending number tickets q)
    go (some a) tickets number = tt
    go none tickets (bad e) = tt
    go none [] (good n) = tt
    go none (t ∷ tickets) (good n) = refl

finish-Moves : (line : Text) (p : ControlParser) → Moves p (finish line p)
unfolding finish tickets_of
finish-Moves line p = go p.active p.pending (frame_command line)
  where
    go :
        (a : Option Active) (tickets : List CommandTicket) (number : Received ℕ)
        → let q : ControlParser = record { pending = tickets; active = a } in
          Moves q (finish_active line number a q)
    go a tickets (bad e) = tt
    go none tickets (good n) = tt
    go (some a) tickets (good n) = elim (Bool-cases (a.tmux_command == n)) [
      | inl same ↦ rw same refl
      | inr other ↦ rw other tt
    ]

output_line-Moves :
    (line : Text) (a : Option Active) (tickets : List CommandTicket)
    → let q : ControlParser = record { pending = tickets; active = a } in
      Moves q (output_line line a q)
unfolding tickets_of
output_line-Moves line none tickets = refl
output_line-Moves line (some a) tickets =
    elim (Bool-cases (
      leb max_command_output_lines (length a.output)
      || ltb max_command_output_bytes (a.output_bytes + byte_len line))) [
        | inl full ↦ rw full tt
        | inr fits ↦ rw fits refl
      ]

notified-Moves : (line : Text) (e : Option Event) (p : ControlParser) → Moves p (notified line e p)
unfolding tickets_of
notified-Moves line (some e) p = refl
notified-Moves line none p = output_line-Moves line p.active p.pending

pub receive-Moves : (line : Text) (p : ControlParser) → Moves p (receive line p)
unfolding receive tickets_of
receive-Moves line p = elim (Bool-cases (starts_with begin_prefix line)) [
  | inl begins ↦ rw begins (begin-Moves line p)
  | inr text ↦ elim (Bool-cases (starts_with end_prefix line || starts_with error_prefix line)) [
    | inl ends ↦ rw (text, ends) (finish-Moves line p)
    | inr other ↦ rw (text, other) (notified-Moves line (translate_notification line) p)
  ]
]
