-- ===== src/Mouse/Packets.antt =====
-- The handler decodes the bytes of the mouse in packets of three, and the pointer stays on the screen.
use flyos.Base.{
  ℕ, subst, ◌+◌, ◌/◌, ◌%◌, ◌^◌, ◌≤◌, ◌<◌, ◌≡◌, refl, true, List, [], ◌∷◌, ◌++◌, ◌==◌, arith, ◌∙◌,
  ap, sym,
}
use flyos.Gui.Defs.{add}
use flyos.Mouse.Defs.{Mouse, cur_w, cur_h, half, minus_half, clamp, fb_cursor_move, mouse_handler}

-- What the mouse sends: the buttons and flags, and the two distances.
pub record Packet : Type 0 where
  pub flags : ℕ
  pub dx : ℕ
  pub dy : ℕ

abbrev pub bytes : List Packet → List ℕ
bytes [] = []
bytes (p ∷ ps) = p.flags ∷ p.dx ∷ p.dy ∷ bytes ps

-- Bit 3 of the first byte is always set.
abbrev pub AreAligned : List Packet → Type 0
AreAligned [] = Unit
AreAligned (p ∷ ps) = (p.flags / 8 % 2 ≡ 1) × AreAligned ps

-- Bytes before the first packet without bit 3.
abbrev pub AreNoise : List ℕ → Type 0
AreNoise [] = Unit
AreNoise (x ∷ xs) = (x / 8 % 2 ≡ 0) × AreNoise xs

module _ (width height : ℕ) where
  -- One interrupt for each byte, with the bit of the mouse in the status.
  abbrev pub run : List ℕ → Mouse → Mouse
  run [] m = m
  run (x ∷ xs) m = run xs (mouse_handler width height 32 x m)

  -- One packet: the buttons are set, and the pointer moves by half the distances, upwards for a positive `dy`.
  abbrev pub apply : Packet → Mouse → Mouse
  apply p m = fb_cursor_move width height (half p.dx) (minus_half p.dy) (record m {
    byte0 = p.flags;
    byte1 = p.dx;
    byte2 = p.dy;
    mouse_cycle = 0;
    buttons = p.flags % 8;
  })

  abbrev pub apply_all : List Packet → Mouse → Mouse
  apply_all [] m = m
  apply_all (p ∷ ps) m = apply_all ps (apply p m)

  handler-noise :
      (x : ℕ) (m : Mouse)
      → x / 8 % 2 ≡ 0
      → m.mouse_cycle ≡ 0
      → mouse_handler width height 32 x m ≡ m
  unfolding mouse_handler
  handler-noise x m t start = let e : (m.mouse_cycle == 0) ≡ true = ground arith in rw (e, t) refl

  run-noise :
      (xs ys : List ℕ) (m : Mouse) → AreNoise xs → m.mouse_cycle ≡ 0 → run (xs ++ ys) m ≡ run ys m
  run-noise [] ys m noise start = refl
  run-noise (x ∷ xs) ys m (t, noise) start =
      ap (run (xs ++ ys)) (handler-noise x m t start) ∙ run-noise xs ys m noise start

  handler-packet :
      (p : Packet) (m : Mouse)
      → p.flags / 8 % 2 ≡ 1
      → m.mouse_cycle ≡ 0
      → mouse_handler width height 32 p.dy
          (mouse_handler width height 32 p.dx (mouse_handler width height 32 p.flags m))
        ≡ apply p m
  unfolding mouse_handler
  handler-packet p m t start = rw (start, t) refl

  apply-start : (p : Packet) (m : Mouse) → (apply p m).mouse_cycle ≡ 0
  unfolding fb_cursor_move
  apply-start p m = refl

  run-packets :
      (ps : List Packet) (m : Mouse)
      → AreAligned ps
      → m.mouse_cycle ≡ 0
      → run (bytes ps) m ≡ apply_all ps m
  run-packets [] m aligned start = refl
  run-packets (p ∷ ps) m (t, aligned) start =
      ap (run (bytes ps)) (handler-packet p m t start)
      ∙ run-packets ps (apply p m) aligned (apply-start p m)

  -- The pointer's picture lies on the screen.
  pub record IsOnScreen (m : Mouse) : Type 0 where
    pub across : m.cur_x + cur_w ≤ width
    pub down : m.cur_y + cur_h ≤ height

clamp-bounded :
    (cur size room : ℕ)
    → cur < 2 ^ 32
    → room ≤ size
    → size < 2 ^ 31
    → clamp cur size room + room ≤ size
unfolding clamp
clamp-bounded cur size room small le lt = ground arith

module _ (width height : ℕ) (wide : cur_w ≤ width) (w31 : width < 2 ^ 31) (high : cur_h ≤ height)
    (h31 : height < 2 ^ 31) where
  fb_cursor_move-IsOnScreen :
      (dx dy : ℕ) (m : Mouse) → IsOnScreen width height (fb_cursor_move width height dx dy m)
  unfolding fb_cursor_move
  fb_cursor_move-IsOnScreen dx dy m = record {
    across = clamp-bounded (add m.cur_x dx) width cur_w (omega arith) wide w31;
    down = clamp-bounded (add m.cur_y dy) height cur_h (omega arith) high h31;
  }

  apply_all-IsOnScreen :
      (ps : List Packet) (m : Mouse)
      → IsOnScreen width height m
      → IsOnScreen width height (apply_all width height ps m)
  apply_all-IsOnScreen [] m on = on
  apply_all-IsOnScreen (p ∷ ps) m on = apply_all-IsOnScreen ps (apply width height p m) (
      fb_cursor_move-IsOnScreen (half p.dx) (minus_half p.dy) (record m {
        byte0 = p.flags;
        byte1 = p.dx;
        byte2 = p.dy;
        mouse_cycle = 0;
        buttons = p.flags % 8;
      }))

  -- From the start of a packet, the interrupts for a sequence of packets, one for each byte and after any bytes
  -- without bit 3, which are skipped, apply the packets in their order, and keep the pointer on a screen of
  -- fewer than 2^31 pixels in each direction that has room for it.
  pub run-apply_all :
      (noise : List ℕ) (ps : List Packet) (m : Mouse)
      → AreNoise noise
      → AreAligned ps
      → m.mouse_cycle ≡ 0
      → IsOnScreen width height m
      → (run width height (noise ++ bytes ps) m ≡ apply_all width height ps m)
        × IsOnScreen width height (run width height (noise ++ bytes ps) m)
  run-apply_all noise ps m skipped aligned start on =
      let e =
        run-noise width height noise (bytes ps) m skipped start
        ∙ run-packets width height ps m aligned start in
      (e, subst (IsOnScreen width height) (sym e) (apply_all-IsOnScreen ps m on))
