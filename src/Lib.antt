-- ===== src/Lib.antt =====
-- tmnotify: Notifications of agents in tmux, shown as Toasts and Attentions by a daemon.
--
-- The program. A client sends a request to the daemon of its tmux server. The request becomes a
-- `NotificationDraft` of bounded plain text, and the daemon's `LiveScheduler` enters it, replaces a
-- live Notification with the same key, or suppresses it. The scheduler owns what is live: the pending
-- queue, the active Toasts, the active Attention, their timers, and the jumps to a Source Pane that are
-- under way. Its display plan says what is to be on screen, a window of Toasts is laid out from it, and
-- the records that close wait in it for the History. Requests and answers cross a private socket as
-- lines of JSON of bounded length; the result of a request is kept, so that a retry gets it again. Each
-- display of a window has a renderer, a process that is launched with a one-time token and redeems it
-- for the stream of its content. The daemon reads tmux on a control connection, where the answers to
-- its commands come in their order, between notifications.
--
-- The files.
--   Base.antt             helpers: Boolean tests, lists with counts, association lists with their laws
--   Notification.antt     src/notification.rs; Ingress (limits and errors), Plain (the normalization of
--                         text), Path (the equality of a `cwd`), Source (enums, ids, source context,
--                         metadata), Draft (`NotificationDraft`), Update (`NotificationUpdate`), Record (`Notification`)
--   Protocol.antt         src/protocol.rs; Frames (`FrameDecoder`), Request (the envelope, the commands,
--                         the redemption and the client's response), Wire (the wire forms and their
--                         conversions), Cache (`RequestResultCache`), Renderer (the renderer's frames)
--   Session.antt          src/render.rs; State, Credentials (issued, retired, expired), Operations
--                         (`create`, `redeem`), Streams (`update`, `terminate`, `renderer_exited`),
--                         Matched and Invariant (credentials against displays), Runs (the step relation)
--   Tmux.antt             src/tmux; Line (words and numbers of a line), Control (`ControlParser` of
--                         src/tmux/control.rs)
--   Scheduler.antt        src/daemon/mod.rs; State (data and timeouts), Exec (methods as state passing
--                         with errors and panics), Queues (`sort_pending`, `rebalance`), Lifecycle
--                         (`prepare_time`, `close`, `close_inner`, `enforce_pending_limit`), Operations
--                         (the public methods), Order (the sort), Invariant (what the methods keep)
--   Toast.antt            src/toast.rs; `layout_window`, and the enums of src/config.rs that it reads
--
-- How the code is modelled. A text is a list of code points, and so is a path, whose equality is that
-- of its components. A method of the scheduler maps a state to
-- an outcome and a state: a value, an error, or a panic of `expect` or of an index into a map; what
-- was written before an error stays written. A `HashMap` is an association list that is read only by
-- its laws. A monotonic time and a duration are numbers of nanoseconds, times of the wall clock are
-- numbers that are stored; counters wrap at 2 ^ 64, and the capacity of the closed queue saturates
-- there. `submit` takes the new id as an argument, and `shutdown` the order in which it meets the
-- entries of the map. The 16-bit sums and products of the layout saturate as in the code; `usize`
-- values are numbers.
--
-- The loops run on fuel: a round of the normalization reads a character, a round of the promotion of
-- Toasts and of the suppression takes a pending entry, so the length of what they consume is enough.
--
-- The loops of the cache, of the decoder and of the retired tokens are recursion on the queue or the
-- bytes that they consume; where the loop of `insert` would have no end, with nothing left in the queue,
-- the model returns nothing, and a theorem excludes it. `unique_token` makes the code's four attempts.
--
-- Of the libraries, JSON and UUIDs are records of functions that the definitions take, the random
-- generator of the tokens is a function on its own state, and a channel of the standard library is its
-- capacity, its queue of messages and whether its receiver lives. What the expiry of credentials meets
-- first in the map is the order of the list.
--
-- Well formed (`Inv` of the scheduler): a live id is in exactly one place, the pending queue, the active Toasts or the
-- active Attention, once, and an id that is not live in none; an entry fits its place and has its own
-- id; the keys are those of the live entries; there are no more active Toasts than the limit; a timer
-- runs only for a Toast on display, from a time in the past; the closed records are closed, with a
-- reason, and no more than their capacity; nothing waits that could be shown.
--
-- Not modelled: sockets, threads, terminals, the tmux process, SQL and JSON, which libraries and the
-- system run; and for now the topology of tmux, the reconciliation, the service, the configuration, the
-- History, the hooks and the providers.
pub mod Base
pub mod Notification
pub mod Protocol
pub mod Scheduler
pub mod Session
pub mod Tmux
pub mod Toast
