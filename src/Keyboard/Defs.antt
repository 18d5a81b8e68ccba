-- ===== src/Keyboard/Defs.antt =====
-- The state and the operations of kernel/drivers/keyboard.c. Characters are their ASCII numbers. The
-- bytes that the handler reads from the two ports are its arguments.
use flyos.Base.{
  ℕ, ◌+◌, ◌-◌, ◌%◌, ◌/◌, Bool, true, false, ◌&&◌, ◌||◌, List, [], ◌∷◌, Option, none, some, leb,
  ◌==◌, if◌then◌else◌, get_or,
}

abbrev pub kbd_buf_size : ℕ
kbd_buf_size = 256

pub record Kbd : Type 0 where
  pub buf : ℕ → ℕ
  pub head : ℕ
  pub tail : ℕ
  pub shift_pressed : Bool

unfoldable pub push : ℕ → Kbd → Kbd
push c k =
    let next = (k.head + 1) % kbd_buf_size in
    if next == k.tail
    then k
    else record k { buf = λ i. if k.head == i then c else k.buf i; head = next }

-- `none` for -1.
unfoldable pub getchar_nonblock : Kbd → Option ℕ × Kbd
getchar_nonblock k =
    if k.head == k.tail
    then (none, k)
    else (some (k.buf k.tail), record k { tail = (k.tail + 1) % kbd_buf_size })

abbrev pub keymap : List ℕ
keymap =
    0 ∷ 27 ∷ 49 ∷ 50 ∷ 51 ∷ 52 ∷ 53 ∷ 54 ∷ 55 ∷ 56 ∷ 57 ∷ 48 ∷ 45 ∷ 61 ∷ 8 ∷ 9 ∷ 113 ∷ 119 ∷ 101
    ∷ 114 ∷ 116 ∷ 121 ∷ 117 ∷ 105 ∷ 111 ∷ 112 ∷ 91 ∷ 93 ∷ 10 ∷ 0 ∷ 97 ∷ 115 ∷ 100 ∷ 102 ∷ 103 ∷ 104
    ∷ 106 ∷ 107 ∷ 108 ∷ 59 ∷ 39 ∷ 96 ∷ 0 ∷ 92 ∷ 122 ∷ 120 ∷ 99 ∷ 118 ∷ 98 ∷ 110 ∷ 109 ∷ 44 ∷ 46 ∷ 47
    ∷ 0 ∷ 42 ∷ 0 ∷ 32 ∷ []

unfoldable pub key_at : ℕ → ℕ
key_at scancode = get_or keymap scancode 0

abbrev pub case_of : ℕ → List (ℕ × ℕ) → ℕ
case_of c [] = c
case_of c ((x, y) ∷ rest) = if c == x then y else case_of c rest

-- The character with Shift: a capital, or the `switch`.
unfoldable pub shifted : ℕ → ℕ
shifted c =
    if leb 97 c && leb c 122
    then c - 97 + 65
    else case_of c (
        (49, 33)
        ∷ (50, 64)
        ∷ (51, 35)
        ∷ (52, 36)
        ∷ (53, 37)
        ∷ (54, 94)
        ∷ (55, 38)
        ∷ (56, 42)
        ∷ (57, 40)
        ∷ (48, 41)
        ∷ (45, 95)
        ∷ (61, 43)
        ∷ (91, 123)
        ∷ (93, 125)
        ∷ (92, 124)
        ∷ (59, 58)
        ∷ (39, 34)
        ∷ (44, 60)
        ∷ (46, 62)
        ∷ (47, 63)
        ∷ (96, 126)
        ∷ [])

abbrev pub is_shift : ℕ → Bool
is_shift code = (code == 0x2A) || (code == 0x36)

unfoldable pub handler : (status scancode : ℕ) → Kbd → Kbd
handler status scancode k =
    let c = key_at scancode in
    if status / 32 % 2 == 1
    then k
    else if leb 128 scancode
    then (if is_shift (scancode % 128) then record k { shift_pressed = false } else k)
    else if is_shift scancode
    then record k { shift_pressed = true }
    else if c == 0
    then k
    else push (if k.shift_pressed then shifted c else c) k
