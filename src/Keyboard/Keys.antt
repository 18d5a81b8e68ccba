-- ===== src/Keyboard/Keys.antt =====
-- Typing: what the interrupt handler makes of a sequence of scan codes.
use flyos.Base.{
  ℕ, ◌+◌, ◌%◌, ◌/◌, ◌<◌, ◌≤◌, ◌≡◌, refl, Bool, true, false, ◌||◌, List, [], ◌∷◌, ◌++◌, ltb, leb,
  ◌==◌, if◌then◌else◌, arith, length, Bool-cases, inl, inr, ◌∙◌, ap, sym, subst, length-append,
}
use flyos.Keyboard.Defs.{Kbd, push, handler, key_at, shifted, is_shift}
use flyos.Keyboard.Buffer.{IsKbd, contents, push-contents, after}

-- One interrupt: the status byte and the scan code.
abbrev pub Event : Type 0
Event = ℕ × ℕ

abbrev pub is_mouse : Event → Bool
is_mouse (status, code) = status / 32 % 2 == 1

-- Whether Shift is down after an event.
abbrev pub shift_after : Bool → Event → Bool
shift_after shift e = if not_shift e then shift else ltb e.1 128
  where
    not_shift : Event → Bool
    not_shift e = if is_mouse e then true else if is_shift (e.1 % 128) then false else true

abbrev is_quiet : Event → Bool
is_quiet e = is_mouse e || leb 128 e.1 || is_shift e.1 || (key_at e.1 == 0)

-- The characters that an event types: none or one.
abbrev pub typed_by : Bool → Event → List ℕ
typed_by shift e =
    if is_quiet e then [] else (if shift then shifted (key_at e.1) else key_at e.1) ∷ []

abbrev pub typed : Bool → List Event → List ℕ
typed shift [] = []
typed shift (e ∷ es) = typed_by shift e ++ typed (shift_after shift e) es

abbrev pub run : List Event → Kbd → Kbd
run [] k = k
run (e ∷ es) k = run es (handler e.0 e.1 k)

handler-shift :
    (e : Event) (k : Kbd)
    → e.1 < 256
    → (handler e.0 e.1 k).shift_pressed ≡ shift_after k.shift_pressed e
unfolding handler push
handler-shift (status, code) k h = ground arith

abbrev pub AllBytes : List Event → Type 0
AllBytes [] = Unit
AllBytes (e ∷ es) = (e.1 < 256) × AllBytes es

length-typed_by : (shift : Bool) (e : Event) → length (typed_by shift e) ≤ 1
length-typed_by shift e = ground arith

handler-quiet :
    (e : Event) (k : Kbd)
    → is_quiet e ≡ true
    → handler e.0 e.1 k ≡ record k { shift_pressed = (handler e.0 e.1 k).shift_pressed }
unfolding handler
handler-quiet (status, code) k q = ground arith

handler-types :
    (e : Event) (k : Kbd)
    → is_quiet e ≡ false
    → handler e.0 e.1 k ≡ push (if k.shift_pressed then shifted (key_at e.1) else key_at e.1) k
unfolding handler
handler-types (status, code) k q = ground arith

append_nil : (xs : List ℕ) → xs ++ [] ≡ xs
append_nil [] = refl
append_nil (x ∷ xs) = ap (λ r. x ∷ r) (append_nil xs)

append_assoc : (xs ys zs : List ℕ) → (xs ++ ys) ++ zs ≡ xs ++ (ys ++ zs)
append_assoc [] ys zs = refl
append_assoc (x ∷ xs) ys zs = ap (λ r. x ∷ r) (append_assoc xs ys zs)

handler-contents :
    (e : Event) (k : Kbd)
    → IsKbd k
    → length (contents k) < 255
    → IsKbd (handler e.0 e.1 k)
      × (contents (handler e.0 e.1 k) ≡ contents k ++ typed_by k.shift_pressed e)
handler-contents e k v small =
    let Good : Kbd → Type 0 =
      λ k'. IsKbd k' × (contents k' ≡ contents k ++ typed_by k.shift_pressed e) in
    elim (Bool-cases (is_quiet e)) [
      | inl y ↦
          let none_typed : contents k ≡ contents k ++ typed_by k.shift_pressed e =
            sym (append_nil (contents k)) ∙ rw y in
          subst Good (sym (handler-quiet e k y))
            (record { head_small = v.head_small; tail_small = v.tail_small }, none_typed)
      | inr n ↦
          let c = if k.shift_pressed then shifted (key_at e.1) else key_at e.1 in
          let (v', w) = push-contents c k v in
          let room : leb 255 (length (contents k)) ≡ false = ground (arith, small) in
          let fits : after c k ≡ contents k ++ typed_by k.shift_pressed e = rw (room, n) in
          subst Good (sym (handler-types e k n)) (v', w ∙ fits)
    ]

-- As long as fewer than 255 characters wait, typing appends the characters of the keys that go down,
-- in their order, each with the Shift key as it is then.
pub run-typed :
    (es : List Event) (k : Kbd)
    → IsKbd k
    → AllBytes es
    → length (contents k) + length es < 256
    → IsKbd (run es k) × (contents (run es k) ≡ contents k ++ typed k.shift_pressed es)
run-typed [] k v b room = (v, sym (append_nil (contents k)))
run-typed (e ∷ es) k v (b, bs) room =
    let k' = handler e.0 e.1 k in
    let (v', w) = handler-contents e k v (omega arith) in
    let sh = handler-shift e k b in
    let one = length-typed_by k.shift_pressed e in
    let size = ap length w ∙ length-append (contents k) (typed_by k.shift_pressed e) in
    let (v'', w') = run-typed es k' v' bs (omega arith) in
    (
      v'',
      w'
          ∙ ap (λ x. x ++ typed k'.shift_pressed es) w
          ∙ ap (λ b. (contents k ++ typed_by k.shift_pressed e) ++ typed b es) sh
          ∙ append_assoc (contents k) (typed_by k.shift_pressed e)
              (typed (shift_after k.shift_pressed e) es),
    )
