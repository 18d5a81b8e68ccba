-- ===== src/Keyboard/Tests.antt =====
-- Typing "aB!" into a buffer that holds one character, with its indices at the end of the array.
use flyos.Base.{◌≡◌, false, List, [], ◌∷◌, arith}
use flyos.Keyboard.Defs.{Kbd, key_at, shifted}
use flyos.Keyboard.Buffer.{IsKbd, contents}
use flyos.Keyboard.Keys.{Event, run, run-typed}

abbrev one_char : Kbd
one_char = record { buf = λ i. 120; head = 0; tail = 255; shift_pressed = false }

one_char-IsKbd : IsKbd one_char
one_char-IsKbd = record { head_small = omega arith; tail_small = omega arith }

-- Press and release a; Shift down; b; 1; Shift up; a mouse interrupt.
abbrev events : List Event
events = (1, 0x1E) ∷ (1, 0x9E) ∷ (1, 0x2A) ∷ (1, 0x30) ∷ (1, 2) ∷ (1, 0xAA) ∷ (0x21, 0x1E) ∷ []

run-typed_example :
    IsKbd (run events one_char) × (contents (run events one_char) ≡ 120 ∷ 97 ∷ 66 ∷ 33 ∷ [])
unfolding key_at shifted
run-typed_example =
    run-typed events one_char one_char-IsKbd
      (
        omega arith,
        (
          omega arith,
          (omega arith, (omega arith, (omega arith, (omega arith, (omega arith, tt))))),
        ),
      )
      (omega arith)
