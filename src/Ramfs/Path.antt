-- ===== src/Ramfs/Path.antt =====
-- Paths in kernel/fs/ramfs.c: `ramfs_lookup` and `ramfs_get_path`.
use flyos.Base.{
  ℕ, zero, suc, ◌+◌, ◌-◌, Bool, true, false, ◌&&◌, ◌||◌, not, List, [], ◌∷◌, ◌++◌, Option, none,
  some, ltb, ◌==◌, if◌then◌else◌, ◌>>=◌, take, length,
}
use flyos.Ramfs.Defs.{Fs, is_dir, name_max, find_child}

abbrev pub slash : ℕ
slash = 47

abbrev pub dot : ℕ
dot = 46

-- `while (*p && *p != '/' && i < RAMFS_NAME_MAX - 1) name[i++] = *p++;`, with `n` characters to go
unfoldable pub take_name : ℕ → List ℕ → List ℕ × List ℕ
take_name zero p = ([], p)
take_name (suc n) [] = ([], [])
take_name (suc n) (c ∷ p) =
    let (name, rest) = take_name n p in if c == slash then ([], c ∷ p) else (c ∷ name, rest)

-- `while (*p == '/') p++;`
unfoldable pub skip_slashes : List ℕ → List ℕ
skip_slashes [] = []
skip_slashes (c ∷ p) = if c == slash then skip_slashes p else c ∷ p

abbrev pub is_dot : List ℕ → Bool
is_dot (c ∷ []) = c == dot
is_dot _ = false

abbrev pub is_dot_dot : List ℕ → Bool
is_dot_dot (c ∷ d ∷ []) = (c == dot) && (d == dot)
is_dot_dot _ = false

abbrev pub is_empty : List ℕ → Bool
is_empty [] = true
is_empty _ = false

-- The loop of `ramfs_lookup` from the node `cur` on; 0 when there is no such node.
unfoldable pub walk : (fuel cur : ℕ) → List ℕ → Fs → Option ℕ
unfolding take_name skip_slashes
walk zero cur p fs = none
walk (suc fuel) cur [] fs = some cur
walk (suc fuel) cur (c ∷ p) fs =
    let (name, after) = take_name (name_max - 1) (c ∷ p) in
    let rest = skip_slashes after in
    let up = (fs.nodes cur).parent in
    let stay = walk fuel cur rest fs in
    let above = walk fuel (if up == 0 then cur else up) rest fs in
    let below : ℕ → Option ℕ = λ child. if child == 0 then some 0 else walk fuel child rest fs in
    if is_empty name || is_dot name
    then stay
    else if is_dot_dot name
    then above
    else if not (is_dir (fs.nodes cur).type)
    then some 0
    else find_child cur name fs >>= below

-- Every round reads a character of the path.
unfoldable pub lookup : List ℕ → Fs → Option ℕ
unfolding walk
lookup [] fs = some 0
lookup (c ∷ p) fs =
    if c == slash then walk (length p + 1) fs.root p fs else walk (length p + 2) fs.cwd (c ∷ p) fs

-- The last steps of `ramfs_get_path`: the path of the parent, a slash, the name, cut to `room`
-- characters.
abbrev ends_in_slash : List ℕ → Bool
ends_in_slash [] = false
ends_in_slash (c ∷ []) = c == slash
ends_in_slash (c ∷ p) = ends_in_slash p

unfoldable pub join : (room : ℕ) → List ℕ → List ℕ → List ℕ
join room path name =
    let start = take room path in
    let sep =
      if ltb (length start) room && not (ends_in_slash path) then start ++ slash ∷ [] else start in
    sep ++ take (room - length sep) name

-- On fuel: the depth of the node.
unfoldable pub get_path : (fuel n max : ℕ) → Fs → Option (List ℕ)
unfolding join
get_path zero n max fs = none
get_path (suc fuel) n max fs =
    let rest = get_path fuel (fs.nodes n).parent 256 fs >>= λ path.
    some (join (max - 1) path (fs.nodes n).name) in
    if (n == 0) || (n == fs.root) then some (take (max - 1) (slash ∷ [])) else rest
