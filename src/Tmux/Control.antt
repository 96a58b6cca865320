-- ===== src/Tmux/Control.antt =====
-- src/tmux/control.rs: `ControlParser`, which correlates tickets with tmux's command numbers.
pub mod Moves
pub mod Limits
pub mod Fifo
pub mod Response
use tmnotify.Base.{
  ℕ, ◌+◌, ◌*◌, Bool, true, false, ◌||◌, ◌&&◌, not, Option, none, some, is_some, List, [], ◌∷◌, ◌++◌,
  ltb, leb, ◌==◌, if◌then◌else◌, length,
}
use tmnotify.Notification.Ingress.{Text, byte_len}
use tmnotify.Notification.Source.{Text-discrete}
use tmnotify.Notification.Record.{eq}
use tmnotify.Tmux.Line.{
  starts_with, split_words, parse_u64, first_word, begin_prefix, end_prefix, error_prefix,
  exit_line, topology_notifications, is_among,
}

abbrev pub max_command_output_lines : ℕ
max_command_output_lines = 4096

abbrev pub max_command_output_bytes : ℕ
max_command_output_bytes = 4 * 1024 * 1024

-- The events that a control line can mean
pub data Event : Type 0 where
  event_disconnected topology_changed : Event

abbrev pub CommandTicket : Type 0
CommandTicket = ℕ

pub record CommandResult : Type 0 where
  pub ticket : CommandTicket
  pub output : List Text
  pub success : Bool

pub data ControlItem : Type 0 where
  command : CommandResult → ControlItem
  event : Event → ControlItem

pub record Active : Type 0 where
  pub ticket : CommandTicket
  pub tmux_command : ℕ
  pub output : List Text
  pub output_bytes : ℕ

pub record ControlParser : Type 0 where
  pub pending : List CommandTicket
  pub active : Option Active

-- The detail of a `ProtocolError`
pub data ControlError : Type 0 where
  output_limit nested_begin begin_unsubmitted completion_without_begin number_mismatch bad_frame
        bad_number :
      ControlError

pub data Received (A : Type 0) : Type 0 where
  good : A → Received A
  bad : ControlError → Received A

abbrev pub parser_new : ControlParser
parser_new = record { pending = []; active = none }

unfoldable pub submitted : CommandTicket → ControlParser → ControlParser
submitted ticket p = record p { pending = p.pending ++ ticket ∷ [] }

abbrev pub numbered : Option ℕ → Received ℕ
numbered none = bad bad_number
numbered (some n) = good n

-- The name, the time, the number and the flags
abbrev pub command_number : List Text → Received ℕ
command_number (name ∷ time ∷ number ∷ flags ∷ []) = numbered (parse_u64 number)
command_number _ = bad bad_frame

unfoldable pub frame_command : Text → Received ℕ
frame_command line = command_number (split_words [] line)

unfoldable pub translate_notification : Text → Option Event
translate_notification line =
    if eq Text-discrete line exit_line || starts_with (exit_line ++ b' ' ∷ []) line
    then some event_disconnected
    else if not (starts_with (b'%' ∷ []) line)
    then none
    else if is_among (first_word line) topology_notifications
    then some topology_changed
    else none

-- `begin`, with no active command, given the number of the frame
abbrev pub begin_pending :
    Received ℕ → List CommandTicket → ControlParser → Received (List ControlItem) × ControlParser
begin_pending (bad e) tickets p = (bad e, p)
begin_pending (good number) [] p = (bad begin_unsubmitted, p)
begin_pending (good number) (ticket ∷ tickets) p = (
  good [],
  record {
    pending = tickets;
    active =
        some (record { ticket = ticket; tmux_command = number; output = []; output_bytes = 0 });
  },
)

unfoldable pub begin : Text → ControlParser → Received (List ControlItem) × ControlParser
begin line p =
    if is_some p.active
    then (bad nested_begin, p)
    else begin_pending (frame_command line) p.pending p

-- `finish`, given the number of the frame. The active command is taken before the numbers are compared.
abbrev pub finish_active :
    Text → Received ℕ → Option Active → ControlParser → Received (List ControlItem) × ControlParser
finish_active line (bad e) active p = (bad e, p)
finish_active line (good number) none p = (bad completion_without_begin, p)
finish_active line (good number) (some a) p =
    if a.tmux_command == number
    then (
      good (
          command
            (record { ticket = a.ticket; output = a.output; success = starts_with end_prefix line })
          ∷ []),
      record p { active = none },
    )
    else (bad number_mismatch, record p { active = none })

unfoldable pub finish : Text → ControlParser → Received (List ControlItem) × ControlParser
finish line p = finish_active line (frame_command line) p.active p

-- A line of output
abbrev pub output_line :
    Text → Option Active → ControlParser → Received (List ControlItem) × ControlParser
output_line line none p = (good [], p)
output_line line (some a) p =
    if leb max_command_output_lines (length a.output)
      || ltb max_command_output_bytes (a.output_bytes + byte_len line)
    then (bad output_limit, p)
    else (
      good [],
      record p {
        active = some (record a {
          output = a.output ++ line ∷ [];
          output_bytes = a.output_bytes + byte_len line;
        });
      },
    )

-- A notification, or a line of output
abbrev pub notified :
    Text → Option Event → ControlParser → Received (List ControlItem) × ControlParser
notified line (some e) p = (good (event e ∷ []), p)
notified line none p = output_line line p.active p

unfoldable pub receive : Text → ControlParser → Received (List ControlItem) × ControlParser
receive line p =
    if starts_with begin_prefix line
    then begin line p
    else if starts_with end_prefix line || starts_with error_prefix line
    then finish line p
    else notified line (translate_notification line) p
