-- ===== src/Paths.antt =====
-- Go's path/filepath on a Unix system: Clean, Join and Dir, by the names between slashes.
pub mod Under
pub mod Names
pub mod Slashes
use mathlib.Core.List.{reverse, filter}
use csi_driver_smb_hardend.Base.{
  Bool, true, false, ◌||◌, not, List, [], ◌∷◌, ◌++◌, Str, codes, str_eq, is_empty, if◌then◌else◌,
}
use csi_driver_smb_hardend.Strings.{has_prefix, split, join}

abbrev pub dot : Str
dot = codes "."

abbrev pub dot_dot : Str
dot_dot = codes ".."

-- `Clean` drops an empty name and ".".
unfoldable pub is_noise : Str → Bool
unfolding str_eq
is_noise name = is_empty name || str_eq name dot

-- ".." takes the last name away. At the root it is dropped, and it stays at the front of a path
-- that is not rooted. The names stand last first.
unfoldable pub step_up : Bool → List Str → List Str
unfolding str_eq
step_up true [] = []
step_up false [] = dot_dot ∷ []
step_up rooted (top ∷ stack) = if str_eq top dot_dot then dot_dot ∷ top ∷ stack else stack

unfoldable pub push : Bool → List Str → Str → List Str
unfolding is_noise step_up
push rooted stack name =
    if str_eq name dot_dot
    then step_up rooted stack
    else if is_noise name
    then stack
    else name ∷ stack

unfoldable pub resolve : Bool → List Str → List Str → List Str
unfolding push
resolve rooted stack [] = stack
resolve rooted stack (name ∷ names) = resolve rooted (push rooted stack name) names

-- An absolute path of names, first name first.
unfoldable pub absolute : List Str → Str
unfolding join
absolute names = b'/' ∷ join b'/' names

unfoldable pub relative : List Str → Str
unfolding join
relative [] = dot
relative (name ∷ names) = join b'/' (name ∷ names)

unfoldable pub render : Bool → List Str → Str
unfolding absolute relative
render true stack = absolute (reverse stack)
render false stack = relative (reverse stack)

-- `filepath.Clean(path)`
unfoldable pub clean : Str → Str
unfolding resolve render has_prefix split
clean path =
    let rooted = has_prefix path (codes "/") in render rooted (resolve rooted [] (split b'/' path))

-- `filepath.Join(dir, name)`
unfoldable pub join_path : Str → Str → Str
unfolding clean
join_path [] [] = []
join_path [] (c ∷ name) = clean (c ∷ name)
join_path (c ∷ dir) name = clean ((c ∷ dir) ++ (b'/' ∷ name))

-- The text up to its last slash, that slash included.
unfoldable pub through_last_slash : Str → Str
unfolding str_eq
through_last_slash [] = []
through_last_slash (c ∷ path) =
    let rest = through_last_slash path in
    if is_empty rest then (if str_eq (c ∷ []) (codes "/") then c ∷ [] else []) else c ∷ rest

-- `filepath.Dir(path)`
unfoldable pub dir_of : Str → Str
unfolding clean through_last_slash
dir_of path = clean (through_last_slash path)
