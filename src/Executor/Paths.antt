-- ===== src/Executor/Paths.antt =====
-- `std::path` on Unix as far as agent/src/executor.rs uses it: a path is its text.
pub mod Join
use tasknexus_client_agent.Prelude.{
  ℕ, Bool, true, false, ◌&&◌, ◌||◌, not, Option, none, some, List, [], ◌∷◌, ◌++◌, eqb, last?,
  if◌then◌else◌, is_empty, text_eq, ◌==◌,
}
use tasknexus_client_agent.Text.{Text, codes, starts_with}

abbrev pub push_first : ℕ → List Text → List Text
push_first d [] = (d ∷ []) ∷ []
push_first d (s ∷ l) = (d ∷ s) ∷ l

-- `split(c)`
unfoldable pub split : ℕ → Text → List Text
split c [] = [] ∷ []
split c (d ∷ t) = let rest = split c t in if eqb d c then [] ∷ rest else push_first d rest

-- The segments with `/` between them.
abbrev pub joined : List Text → Text
joined [] = []
joined (s ∷ []) = s
joined (s ∷ next ∷ l) = s ++ (codes "/" ++ joined (next ∷ l))

abbrev pub is_relative : Text → Bool
is_relative path = not (starts_with (codes "/") path)

abbrev pub wants_separator : Option ℕ → Bool
wants_separator none = false
wants_separator (some c) = not (eqb c b'/')

-- `base.join(path)`
unfoldable pub join : Text → Text → Text
join base path =
    if starts_with (codes "/") path
    then path
    else if wants_separator (last? base)
    then base ++ (codes "/" ++ path)
    else base ++ path

-- What `components` leaves out behind the first segment.
abbrev pub is_skipped : Text → Bool
is_skipped segment = is_empty segment || (segment == codes ".")

abbrev pub trim_segments : List Text → List Text
trim_segments [] = []
trim_segments (s ∷ l) =
    let rest = trim_segments l in if is_empty rest && is_skipped s then [] else s ∷ rest

abbrev pub init : List Text → List Text
init [] = []
init (s ∷ []) = []
init (s ∷ next ∷ l) = s ∷ init (next ∷ l)

abbrev pub normal_name : Text → Option Text
normal_name s = if is_skipped s || (s == codes "..") then none else some s

abbrev pub normal_last : Option Text → Option Text
normal_last none = none
normal_last (some name) = normal_name name

abbrev pub last_name : Text → List Text → Option Text
last_name first [] = normal_name first
last_name first (s ∷ l) = normal_last (last? (s ∷ l))

abbrev pub file_name_in : List Text → Option Text
file_name_in [] = none
file_name_in (first ∷ l) = last_name first (trim_segments l)

unfoldable pub file_name : Text → Option Text
unfolding split
file_name path = file_name_in (split b'/' path)

-- The root has no parent, and one name has the empty path.
abbrev pub with_first : Text → List Text → Option Text
with_first first [] = if is_empty first then some (codes "/") else some first
with_first first (s ∷ l) = some (joined (first ∷ s ∷ l))

abbrev pub parent_of : Text → List Text → Option Text
parent_of first [] = if is_empty first then none else some []
parent_of first (s ∷ l) = with_first first (trim_segments (init (s ∷ l)))

abbrev pub parent_in : List Text → Option Text
parent_in [] = none
parent_in (first ∷ l) = parent_of first (trim_segments l)

unfoldable pub parent : Text → Option Text
unfolding split
parent path = parent_in (split b'/' path)
