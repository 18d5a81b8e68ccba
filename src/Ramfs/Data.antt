-- ===== src/Ramfs/Data.antt =====
-- Reading and writing files in kernel/fs/ramfs.c. A buffer that is passed in or out is a list of bytes.
-- An `int` is the number of its 32 bits.
use flyos.Base.{
  ℕ, zero, suc, ◌+◌, ◌*◌, ◌-◌, ◌%◌, ◌^◌, Bool, true, false, ◌||◌, List, [], ◌∷◌, Option, none, some,
  ltb, leb, ◌==◌, if◌then◌else◌, ◌>>=◌, length,
}
use flyos.Heap.Defs.{kmalloc}
use flyos.Ramfs.Defs.{Fs, is_dir, put_node, free_buffer}

abbrev pub int_of : ℕ → ℕ
int_of n = n % 2 ^ 32

-- `-1`
abbrev pub minus_one : ℕ
minus_one = 2 ^ 32 - 1

-- `while (new_cap < need) new_cap *= 2;`, on fuel
unfoldable pub grow : (fuel new_cap need : ℕ) → Option ℕ
grow zero new_cap need = none
grow (suc fuel) new_cap need =
    let rest = grow fuel (new_cap * 2 % 2 ^ 64) need in
    if ltb new_cap need then rest else some new_cap

abbrev pub Bytes : Type 0
Bytes = ℕ → ℕ → ℕ

-- `for (i = 0; i < n; i++) nd[i] = data[i];`, for `n` bytes from the index `i` on
unfoldable pub copy_bytes : (n i nd d : ℕ) → Bytes → Bytes
copy_bytes zero i nd d b = b
copy_bytes (suc n) i nd d b =
    copy_bytes n (i + 1) nd d (λ p j. if p == nd then if j == i then b d i else b p j else b p j)

-- `for (i = 0; i < n; i++) data[off + i] = src[i];`
unfoldable pub store_bytes : List ℕ → (off d : ℕ) → Bytes → Bytes
store_bytes [] off d b = b
store_bytes (x ∷ xs) off d b =
    store_bytes xs (off + 1) d (λ p j. if p == d then if j == off then x else b p j else b p j)

-- The buffer is made large enough for `need` bytes: `false` when the heap has no room.
unfoldable pub enlarge : (f need : ℕ) → Fs → Option (Bool × Fs)
enlarge f need fs =
    let n = fs.nodes f in
    if leb need n.capacity
    then some (true, fs)
    else grow 64 (if n.capacity == 0 then 64 else n.capacity) need >>= λ new_cap.
        kmalloc fs.heap new_cap >>= λ r.
        if r.0 == 0
        then some (false, record fs { heap = r.1 })
        else free_buffer n.buffer r.1 >>= λ h. some (
          true,
          record fs {
            nodes = put_node fs.nodes f (record n { buffer = r.0; capacity = new_cap });
            bytes = if n.buffer == 0 then fs.bytes else copy_bytes n.size 0 r.0 n.buffer fs.bytes;
            heap = h;
          },
        )

-- The bytes are stored in the buffer, which is large enough.
abbrev pub store : (f : ℕ) → List ℕ → (off : ℕ) → Fs → Fs
store f buf off fs =
    let n = fs.nodes f in
    let need = (off + length buf) % 2 ^ 64 in
    record fs {
      bytes = store_bytes buf off n.buffer fs.bytes;
      nodes = if ltb n.size need then put_node fs.nodes f (record n { size = need }) else fs.nodes;
    }

unfoldable pub write : (f : ℕ) → List ℕ → (off : ℕ) → Fs → Option (ℕ × Fs)
write f buf off fs =
    if (f == 0) || is_dir (fs.nodes f).type
    then some (minus_one, fs)
    else enlarge f ((off + length buf) % 2 ^ 64) fs >>= λ r.
        if r.0 then some (int_of (length buf), store f buf off r.1) else some (minus_one, r.1)

-- `for (i = 0; i < n; i++) dst[i] = data[off + i];`
unfoldable pub load_bytes : (n off d : ℕ) → Bytes → List ℕ
load_bytes zero off d b = []
load_bytes (suc n) off d b = b d off ∷ load_bytes n (off + 1) d b

-- The result, and the bytes that are stored in the caller's buffer.
unfoldable pub read : (f n off : ℕ) → Fs → ℕ × List ℕ
read f n off fs =
    let node = fs.nodes f in
    let avail = node.size - off in
    let count = if ltb avail n then avail else n in
    if (f == 0) || is_dir node.type
    then (minus_one, [])
    else if leb node.size off
    then (0, [])
    else (int_of count, load_bytes count off node.buffer fs.bytes)
