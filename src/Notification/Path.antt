-- ===== src/Notification/Path.antt =====
-- The equality of the standard library's `PathBuf`, which src/notification.rs uses for a `cwd`: two
-- paths are equal where their components are, as on Unix.
use tmnotify.Base.{
  ℕ, Bool, true, false, ◌||◌, Option, List, [], ◌∷◌, ◌==◌, if◌then◌else◌, ℕ_discrete,
}
use tmnotify.Notification.Ingress.{Text}

abbrev separator : ℕ
separator = b'/'

abbrev in_front : ℕ → List Text → List Text
in_front c [] = (c ∷ []) ∷ []
in_front c (part ∷ parts) = if c == separator then [] ∷ part ∷ parts else (c ∷ part) ∷ parts

-- The parts between the separators, the empty ones included.
unfoldable pub split_path : Text → List Text
split_path [] = [] ∷ []
split_path (c ∷ cs) = in_front c (split_path cs)

abbrev is_empty_part : Text → Bool
is_empty_part [] = true
is_empty_part (c ∷ cs) = false

-- The part `.`
abbrev is_current : Text → Bool
is_current (c ∷ []) = c == b'.'
is_current _ = false

-- An empty part and a `.` are no components.
unfoldable pub named : List Text → List Text
named [] = []
named (part ∷ parts) =
    let rest = named parts in if is_empty_part part || is_current part then rest else part ∷ rest

-- A separator at the start is the root, and a `.` at the start is a component.
abbrev from_start : List Text → List Text
from_start [] = []
from_start (part ∷ parts) = (if is_empty_part part then separator ∷ [] else part) ∷ named parts

-- `Path::components`
unfoldable pub components : Text → List Text
unfolding split_path named
components [] = []
components (c ∷ cs) = from_start (split_path (c ∷ cs))

unfoldable pub Components-discrete : Discrete (Option (List Text))
unfolding ℕ_discrete
Components-discrete = hlevel ℕ_discrete
