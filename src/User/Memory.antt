-- ===== src/User/Memory.antt =====
-- user/lib/string.c. Memory is the byte at each address; a buffer does not wrap around the end of the
-- address space. An `int` that is returned is the number of its 32 bits. A routine on strings takes
-- fuel, and answers `none` when it found no terminator.
use flyos.Base.{
  ℕ, zero, suc, ◌+◌, ◌-◌, ◌%◌, ◌^◌, ◌&&◌, not, Option, none, some, ltb, ◌==◌, if◌then◌else◌,
}

abbrev pub Memory : Type 0
Memory = ℕ → ℕ

abbrev pub store : Memory → ℕ → ℕ → Memory
store m p c a = if p == a then c else m a

-- The difference of two bytes, as an `int`.
abbrev pub diff : ℕ → ℕ → ℕ
diff a b = (a + 2 ^ 32 - b) % 2 ^ 32

-- `for (i = i0; i < i0 + n; i++) d[i] = (unsigned char)c;`
unfoldable pub fill : (n i d c : ℕ) → Memory → Memory
fill zero i d c m = m
fill (suc n) i d c m = fill n (i + 1) d c (store m (d + i) (c % 256))

unfoldable pub memset : (dst c n : ℕ) → Memory → Memory
unfolding fill
memset dst c n m = fill n 0 dst c m

-- `for (i = i0; i < i0 + n; i++) d[i] = s[i];`
unfoldable pub copy_up : (n i d s : ℕ) → Memory → Memory
copy_up zero i d s m = m
copy_up (suc n) i d s m = copy_up n (i + 1) d s (store m (d + i) (m (s + i)))

-- `for (i = n; i > 0; i--) d[i-1] = s[i-1];`
unfoldable pub copy_down : (n d s : ℕ) → Memory → Memory
copy_down zero d s m = m
copy_down (suc n) d s m = copy_down n d s (store m (d + n) (m (s + n)))

unfoldable pub memcpy : (dst src n : ℕ) → Memory → Memory
unfolding copy_up
memcpy dst src n m = copy_up n 0 dst src m

unfoldable pub memmove : (dst src n : ℕ) → Memory → Memory
unfolding copy_up copy_down
memmove dst src n m =
    if ltb dst src then copy_up n 0 dst src m else if ltb src dst then copy_down n dst src m else m

-- The loop of `memcmp` from the index `i` on.
unfoldable pub compare_bytes : (n i x y : ℕ) → Memory → ℕ
compare_bytes zero i x y m = 0
compare_bytes (suc n) i x y m =
    let rest = compare_bytes n (i + 1) x y m in
    if m (x + i) == m (y + i) then rest else diff (m (x + i)) (m (y + i))

unfoldable pub memcmp : (a b n : ℕ) → Memory → ℕ
unfolding compare_bytes
memcmp a b n m = compare_bytes n 0 a b m

unfoldable pub strlen_loop : (fuel n s : ℕ) → Memory → Option ℕ
strlen_loop zero n s m = none
strlen_loop (suc fuel) n s m =
    let rest = strlen_loop fuel (n + 1) s m in if m (s + n) == 0 then some n else rest

unfoldable pub strlen : (fuel s : ℕ) → Memory → Option ℕ
unfolding strlen_loop
strlen fuel s m = strlen_loop fuel 0 s m

unfoldable pub strcmp : (fuel a b : ℕ) → Memory → Option ℕ
strcmp zero a b m = none
strcmp (suc fuel) a b m =
    let rest = strcmp fuel (a + 1) (b + 1) m in
    if not (m a == 0) && (m a == m b) then rest else some (diff (m a) (m b))

-- `while ((*d++ = *src++)) {}`
unfoldable pub strcpy : (fuel dst src : ℕ) → Memory → Option Memory
strcpy zero d s m = none
strcpy (suc fuel) d s m =
    let rest = strcpy fuel (d + 1) (s + 1) (store m d (m s)) in
    if m s == 0 then some (store m d (m s)) else rest

-- The loops of `strncpy` from the index `i` on, with `n` bytes to go.
unfoldable pub copy_padded : (n i d s : ℕ) → Memory → Memory
unfolding fill
copy_padded zero i d s m = m
copy_padded (suc n) i d s m =
    let rest = copy_padded n (i + 1) d s (store m (d + i) (m (s + i))) in
    if m (s + i) == 0 then fill (suc n) i d 0 m else rest

unfoldable pub strncpy : (dst src n : ℕ) → Memory → Memory
unfolding copy_padded
strncpy dst src n m = copy_padded n 0 dst src m

-- The loop of `strncmp` from the index `i` on.
unfoldable pub compare_chars : (n i a b : ℕ) → Memory → ℕ
compare_chars zero i a b m = 0
compare_chars (suc n) i a b m =
    let rest = compare_chars n (i + 1) a b m in
    if not (m (a + i) == m (b + i))
    then diff (m (a + i)) (m (b + i))
    else if m (a + i) == 0
    then 0
    else rest

unfoldable pub strncmp : (a b n : ℕ) → Memory → ℕ
unfolding compare_chars
strncmp a b n m = compare_chars n 0 a b m
