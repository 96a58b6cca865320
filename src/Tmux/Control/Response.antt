-- ===== src/Tmux/Control/Response.antt =====
-- A whole response: its first line, the lines of its output, and its last line.
use tmnotify.Base.{
  ℕ, ◌+◌, ◌≤◌, ◌<◌, ◌≡◌, refl, ◌∙◌, true, false, ◌||◌, none, some, List, [], ◌∷◌, ◌++◌, ◌==◌,
  length, length-append, All, arith,
}
use mathlib.Core.List.{append_assoc, append-nil}
use tmnotify.Notification.Ingress.{Text, byte_len}
use tmnotify.Tmux.Line.{starts_with, begin_prefix, end_prefix, error_prefix}
use tmnotify.Tmux.Control.{
  CommandTicket, ControlItem, command, ControlParser, Received, good, bad, frame_command, begin,
  finish, receive, translate_notification, max_command_output_lines, max_command_output_bytes,
}
use tmnotify.Tmux.Control.Limits.{total_bytes}

abbrev pub then_items :
    List ControlItem
    → Received (List ControlItem) × ControlParser
    → Received (List ControlItem) × ControlParser
then_items items (good more, p) = (good (items ++ more), p)
then_items items (bad e, p) = (bad e, p)

abbrev pub and_receive :
    (ControlParser → Received (List ControlItem) × ControlParser)
    → Received (List ControlItem) × ControlParser
    → Received (List ControlItem) × ControlParser
and_receive k (good items, p) = then_items items (k p)
and_receive k (bad e, p) = (bad e, p)

-- Line by line, up to the first error
unfoldable pub receive_all : List Text → ControlParser → Received (List ControlItem) × ControlParser
receive_all [] p = (good [], p)
receive_all (line ∷ lines) p = and_receive (receive_all lines) (receive line p)

-- A line that is no frame and no notification
pub record IsOutput (line : Text) : Type 0 where
  pub no_begin : starts_with begin_prefix line ≡ false
  pub no_end : starts_with end_prefix line || starts_with error_prefix line ≡ false
  pub no_event : translate_notification line ≡ none

then_items-nil : (r : Received (List ControlItem) × ControlParser) → then_items [] r ≡ r
then_items-nil (good items, p) = refl
then_items-nil (bad e, p) = refl

-- The parser within a response
abbrev within_response : List CommandTicket → CommandTicket → ℕ → List Text → ℕ → ControlParser
within_response tickets t n output bytes = record {
  pending = tickets;
  active = some (record { ticket = t; tmux_command = n; output = output; output_bytes = bytes });
}

receive-IsOutput :
    (line : Text) (tickets : List CommandTicket) (t : CommandTicket) (n : ℕ) (output : List Text)
    (bytes : ℕ)
    → IsOutput line
    → length output < max_command_output_lines
    → bytes + byte_len line ≤ max_command_output_bytes
    → receive line (within_response tickets t n output bytes)
      ≡ (good [], within_response tickets t n (output ++ line ∷ []) (bytes + byte_len line))
unfolding receive
receive-IsOutput line tickets t n output bytes h few small =
    rw (h.no_begin, h.no_end, h.no_event) (ground (arith, few, small))

receive_all-IsOutput :
    (lines rest : List Text) (tickets : List CommandTicket) (t : CommandTicket) (n : ℕ)
    (output : List Text) (bytes : ℕ)
    → All IsOutput lines
    → length output + length lines ≤ max_command_output_lines
    → bytes + total_bytes lines ≤ max_command_output_bytes
    → receive_all (lines ++ rest) (within_response tickets t n output bytes)
      ≡ receive_all rest (within_response tickets t n (output ++ lines) (bytes + total_bytes lines))
unfolding receive_all
receive_all-IsOutput [] rest tickets t n output bytes h few small =
    let sum : bytes + 0 ≡ bytes = omega arith in rw (append-nil output, sum)
receive_all-IsOutput (line ∷ lines) rest tickets t n output bytes h few small =
    rw
      (receive-IsOutput line tickets t n output bytes h.0 (omega (arith, few))
        (omega (arith, small)))
      (then_items-nil (
          receive_all (lines ++ rest)
            (within_response tickets t n (output ++ line ∷ []) (bytes + byte_len line)))
        ∙ receive_all-IsOutput lines rest tickets t n (output ++ line ∷ []) (bytes + byte_len line)
            h.1 (ground (arith, few, length-append output (line ∷ []))) (omega (arith, small))
        ∙ (let sum : bytes + byte_len line + total_bytes lines
                ≡ bytes + (byte_len line + total_bytes lines) =
              omega arith in
            rw (append_assoc output (line ∷ []) lines, sum)))

-- The frame lines of a response: they begin and end one command number.
pub record IsFramed (first last : Text) (n : ℕ) : Type 0 where
  pub begins : starts_with begin_prefix first ≡ true
  pub begins_number : frame_command first ≡ good n
  pub no_begin : starts_with begin_prefix last ≡ false
  pub ends : starts_with end_prefix last || starts_with error_prefix last ≡ true
  pub ends_number : frame_command last ≡ good n

receive-first :
    (first last : Text) (n : ℕ) (t : CommandTicket) (tickets : List CommandTicket)
    → IsFramed first last n
    → receive first (record { pending = t ∷ tickets; active = none })
      ≡ (good [], within_response tickets t n [] 0)
unfolding receive begin
receive-first first last n t tickets f = rw (f.begins, f.begins_number)

receive-last :
    (first last : Text) (n : ℕ) (t : CommandTicket) (tickets : List CommandTicket)
    (output : List Text) (bytes : ℕ)
    → IsFramed first last n
    → receive last (within_response tickets t n output bytes) ≡ (
      good (
          command (record { ticket = t; output = output; success = starts_with end_prefix last })
          ∷ []),
      record { pending = tickets; active = none },
    )
unfolding receive finish
receive-last first last n t tickets output bytes f =
    let same : n == n ≡ true = ground arith in rw (f.no_begin, f.ends, f.ends_number, same)

-- A first line and a last line of one command number, and between them lines that are no frames
-- and no notifications and are within the limits, give one result: it has the ticket that waited
-- first, exactly these lines, and success if the last line is an `%end`. The parser then waits
-- for the other tickets.
pub receive_all-response :
    (first last : Text) (n : ℕ) (lines : List Text) (t : CommandTicket)
    (tickets : List CommandTicket)
    → IsFramed first last n
    → All IsOutput lines
    → length lines ≤ max_command_output_lines
    → total_bytes lines ≤ max_command_output_bytes
    → receive_all (first ∷ lines ++ last ∷ []) (record { pending = t ∷ tickets; active = none }) ≡ (
      good (
          command (record { ticket = t; output = lines; success = starts_with end_prefix last })
          ∷ []),
      record { pending = tickets; active = none },
    )
unfolding receive_all
receive_all-response first last n lines t tickets f h few small =
    rw (receive-first first last n t tickets f) (
      then_items-nil (receive_all (lines ++ last ∷ []) (within_response tickets t n [] 0))
      ∙ receive_all-IsOutput lines (last ∷ []) tickets t n [] 0 h (omega (arith, few))
          (omega (arith, small))
      ∙ rw (receive-last first last n t tickets lines (0 + total_bytes lines) f))
