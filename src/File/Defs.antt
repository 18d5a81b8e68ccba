-- ===== src/File/Defs.antt =====
-- The descriptor table of kernel/fs/file.c and its operations, over the files of kernel/fs/ramfs.c. An
-- `int` is the number of its 32 bits, so that a negative one is at least 2^31; the results that
-- `file_read`, `file_write` and `dir_read` widen to 64 bits are given as these `int`s. `none`: a loop ran out
-- of fuel.
use flyos.Base.{
  ℕ, zero, suc, ◌+◌, ◌-◌, ◌%◌, ◌^◌, Bool, true, false, ◌&&◌, ◌||◌, not, List, [], ◌∷◌, Option, none,
  some, ltb, leb, ◌==◌, if◌then◌else◌, ◌>>=◌, take, drop, min,
}
use flyos.Heap.Defs.{rounds}
use flyos.Ramfs.Defs.{Node, NodeType, Fs, is_dir, create_file, mkdir}
use flyos.Ramfs.Path.{lookup}
use flyos.Ramfs.Data
use flyos.Ramfs.Data.{minus_one, read}

-- `file_t`
pub record Slot : Type 0 where
  pub used : Bool
  pub node : ℕ
  pub pos : ℕ
  pub is_dir : Bool

pub record Files : Type 0 where
  pub table : ℕ → Slot
  pub fs : Fs

-- MAX_FD
abbrev pub max_fd : ℕ
max_fd = 64

abbrev pub empty_slot : Slot
empty_slot = record { used = false; node = 0; pos = 0; is_dir = false }

abbrev pub put_slot : (ℕ → Slot) → ℕ → Slot → ℕ → Slot
put_slot table fd x i = if fd == i then x else table i

unfoldable pub file_init : Files → Files
file_init s = record s { table = λ i. if ltb i max_fd then empty_slot else s.table i }

-- `for (int i = 0; name[i]; i++) if (name[i] == '/') last_slash = i;`; `none` for -1
unfoldable pub last_slash_from : (i : ℕ) → Option ℕ → List ℕ → Option ℕ
last_slash_from i found [] = found
last_slash_from i found (c ∷ name) =
    last_slash_from (i + 1) (if c == 47 then some i else found) name

-- `parent_path`, cut to 127 characters.
abbrev pub parent_path : ℕ → List ℕ → List ℕ
parent_path last_slash name = take (min last_slash 127) name

-- The node of a directory that the path names, 0 when there is none.
abbrev pub lookup_dir : List ℕ → Fs → Option ℕ
lookup_dir path fs =
    lookup path fs >>= λ n. some (if (n == 0) || not (is_dir (fs.nodes n).type) then 0 else n)

-- The part of `file_open` that makes the file: 0 when it cannot be made.
unfoldable pub create_at : List ℕ → Fs → Option (ℕ × Fs)
unfolding last_slash_from
create_at name fs = elim (last_slash_from 0 none name) [
  | none ↦ create_file fs.cwd name fs
  | some i ↦
      let path = parent_path i name in
      let plen = min i 127 in
      let parent : Option ℕ =
        if plen == 0
        then some (if is_dir (fs.nodes fs.root).type then fs.root else 0)
        else lookup_dir path fs in
      parent >>= λ d. if d == 0 then some (0, fs) else create_file d (drop (i + 1) name) fs
]

-- `for (int i = 3; i < MAX_FD; i++) if (!fd_table[i].used)`, from `i` on with `n` slots to go; 64 when all
-- are used
unfoldable pub first_free : (n i : ℕ) → (ℕ → Slot) → ℕ
first_free zero i table = i
first_free (suc n) i table = if (table i).used then first_free n (i + 1) table else i

-- The slot that `file_open` and `dir_open` take for the node `n`.
unfoldable pub take_slot : (n : ℕ) → Bool → Files → ℕ × Files
unfolding first_free
take_slot n is_dir s =
    let i = first_free 61 3 s.table in
    if i == max_fd then (minus_one, s) else (
      i,
      record s {
        table = put_slot s.table i (record { used = true; node = n; pos = 0; is_dir = is_dir });
      },
    )

unfoldable pub file_open : List ℕ → Files → Option (ℕ × Files)
file_open name s = lookup name s.fs >>= λ n.
    (if n == 0 then create_at name s.fs else some (n, s.fs)) >>= λ r.
    let s' : Files = record s { fs = r.1 } in
    some (
      if r.0 == 0
      then (minus_one, s')
      else if is_dir (r.1.nodes r.0).type
      then (minus_one, s')
      else take_slot r.0 false s')

-- `fd < 3 || fd >= MAX_FD || !fd_table[fd].used`
abbrev pub is_closed : ℕ → Files → Bool
is_closed fd s = ltb fd 3 || (leb max_fd fd || not (s.table fd).used)

unfoldable pub file_close : ℕ → Files → ℕ × Files
file_close fd s =
    if is_closed fd s
    then (minus_one, s)
    else (0, record s { table = put_slot s.table fd empty_slot })

-- `if (r > 0) fd_table[fd].pos += (uint64_t)r;`
abbrev pub advance : (fd r : ℕ) → Files → Files
advance fd r s =
    let x = s.table fd in
    if ltb 0 r && ltb r (2 ^ 31)
    then record s { table = put_slot s.table fd (record x { pos = (x.pos + r) % 2 ^ 64 }) }
    else s

-- The result, the bytes that are stored in the caller's buffer, and the new state.
unfoldable pub file_read : (fd n : ℕ) → Files → ℕ × List ℕ × Files
file_read fd n s =
    let x = s.table fd in
    let r = read x.node n x.pos s.fs in
    if is_closed fd s
    then (minus_one, [], s)
    else if x.is_dir
    then (minus_one, [], s)
    else (r.0, r.1, advance fd r.0 s)

unfoldable pub file_write : (fd : ℕ) → List ℕ → Files → Option (ℕ × Files)
file_write fd buf s =
    let x = s.table fd in
    if is_closed fd s
    then some (minus_one, s)
    else if x.is_dir
    then some (minus_one, s)
    else Data.write x.node buf x.pos s.fs >>= λ r.
        some (r.0, advance fd r.0 (record s { fs = r.1 }))

unfoldable pub dir_open : List ℕ → Files → Option (ℕ × Files)
dir_open name s =
    lookup_dir name s.fs >>= λ n. some (if n == 0 then (minus_one, s) else take_slot n true s)

-- The loop of `dir_read`: the child with the index `target`, counted from `idx` at the child `c`; 0 at
-- the end.
unfoldable pub nth_child : (fuel c idx target : ℕ) → (ℕ → Node) → Option ℕ
nth_child zero c idx target nodes = none
nth_child (suc fuel) c idx target nodes =
    let rest = nth_child fuel (nodes c).next (idx + 1) target nodes in
    if c == 0 then some 0 else if idx == target then some c else rest

-- The result, the name and the type that are stored for the caller, and the new state; `max` is at least 1.
unfoldable pub dir_read : (fd max : ℕ) → Files → Option (ℕ × Option (List ℕ × NodeType) × Files)
dir_read fd max s =
    let x = s.table fd in
    if is_closed fd s
    then some (minus_one, none, s)
    else if not x.is_dir
    then some (minus_one, none, s)
    else nth_child rounds (s.fs.nodes x.node).children 0 x.pos s.fs.nodes >>= λ c.
        if c == 0
        then some (0, none, s)
        else some (
          1,
          some (take (max - 1) (s.fs.nodes c).name, (s.fs.nodes c).type),
          record s { table = put_slot s.table fd (record x { pos = (x.pos + 1) % 2 ^ 64 }) },
        )

-- 0 when the file cannot be opened.
unfoldable pub file_open_node : List ℕ → Files → Option (ℕ × Files)
unfolding file_close
file_open_node name s = file_open name s >>= λ r.
    if leb (2 ^ 31) r.0 then some (0, r.1) else some ((r.1.table r.0).node, (file_close r.0 r.1).1)

abbrev pub mkdir_in : (d : ℕ) → List ℕ → Fs → Option (ℕ × Fs)
mkdir_in d name fs = mkdir d name fs >>= λ r. some (if r.0 == 0 then minus_one else 0, r.1)

unfoldable pub fs_mkdir_path : List ℕ → Fs → Option (ℕ × Fs)
unfolding last_slash_from
fs_mkdir_path [] fs = some (minus_one, fs)
fs_mkdir_path (c ∷ path) fs = elim (last_slash_from 0 none (c ∷ path)) [
  | none ↦ mkdir_in fs.cwd (c ∷ path) fs
  | some zero ↦ mkdir_in fs.root path fs
  | some (suc i) ↦ lookup_dir (parent_path (suc i) (c ∷ path)) fs >>= λ d.
      if d == 0 then some (minus_one, fs) else mkdir_in d (drop (suc i) path) fs
]
