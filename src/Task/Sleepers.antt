-- ===== src/Task/Sleepers.antt =====
-- The sleepers: what `scheduler_tick` does to their table and to their tasks.
use flyos.Base.{
  ℕ, ◌+◌, ◌<◌, ◌≤◌, ◌%◌, ◌^◌, ◌≡◌, refl, Bool, true, false, ◌&&◌, List, [], ◌∷◌, some, leb, ◌==◌,
  if◌then◌else◌, arith, Bool-cases, inl, inr, ◌∙◌, ap,
}
use flyos.Task.Defs.{
  State, ready, running, blocked, dead, is_blocked, Tasks, Sched, Sleeper, is_due, wake_entry,
  wake_sleepers, scheduler_tick,
}
use flyos.Task.Wait.{roused}

-- Some entry of the table is for the task `t`, and due at `now`.
abbrev pub has_due : ℕ → ℕ → List Sleeper → Bool
has_due now t [] = false
has_due now t (e ∷ es) =
    if (e.used && leb e.wake_at now) && (e.task == t) then true else has_due now t es

-- The table after the tick: entry by entry, one in use whose time has come is marked unused, and every other one is
-- as before.
abbrev pub Settled : (now : ℕ) → List Sleeper → List Sleeper → Type 0
Settled now [] [] = Unit
Settled now [] (e' ∷ es') = ⊥
Settled now (e ∷ es) [] = ⊥
Settled now (e ∷ es) (e' ∷ es') =
    (e.used ≡ true → e.wake_at ≤ now → e' ≡ record e { used = false })
    × (e.used ≡ false → e' ≡ e)
    × (now < e.wake_at → e' ≡ e)
    × Settled now es es'

wake_sleepers-Settled :
    (now : ℕ) (es : List Sleeper) (ts : Tasks) → Settled now es (wake_sleepers now es ts).0
unfolding wake_sleepers
wake_sleepers-Settled now [] ts = tt
wake_sleepers-Settled now (e ∷ es) ts = (
  (λ u le. let late : leb e.wake_at now ≡ true = ground arith in rw (u, late) refl),
  (λ u. rw u refl),
  (λ lt. let early : is_due now e ≡ false = ground arith in rw early refl),
  wake_sleepers-Settled now es (wake_entry now e ts),
)

roused-is_blocked : (st : State) → (if is_blocked st then ready else st) ≡ roused st
roused-is_blocked ready = refl
roused-is_blocked running = refl
roused-is_blocked blocked = refl
roused-is_blocked dead = refl

roused-roused : (st : State) → roused (roused st) ≡ roused st
roused-roused ready = refl
roused-roused running = refl
roused-roused blocked = refl
roused-roused dead = refl

wake_entry-state :
    (now : ℕ) (e : Sleeper) (ts : Tasks) (t : ℕ)
    → (wake_entry now e ts t).state
      ≡ (if is_due now e && (e.task == t) then roused (ts t).state else (ts t).state)
wake_entry-state now e ts t =
    let b = roused-is_blocked (ts t).state in
    elim (Bool-cases (e.task == t)) [ inl y ↦ ground (arith, b, y) | inr n ↦ ground (arith, n) ]

roused-both :
    (b h : Bool) (st st1 st2 : State)
    → st1 ≡ (if b then roused st else st)
    → st2 ≡ (if h then roused st1 else st1)
    → st2 ≡ (if if b then true else h then roused st else st)
roused-both true true st st1 st2 e f = f ∙ ap roused e ∙ roused-roused st
roused-both true false st st1 st2 e f = f ∙ e
roused-both false true st st1 st2 e f = f ∙ ap roused e
roused-both false false st st1 st2 e f = f ∙ e

wake_sleepers-state :
    (now : ℕ) (es : List Sleeper) (ts : Tasks) (t : ℕ)
    → ((wake_sleepers now es ts).1 t).state
      ≡ (if has_due now t es then roused (ts t).state else (ts t).state)
unfolding wake_sleepers
wake_sleepers-state now [] ts t = refl
wake_sleepers-state now (e ∷ es) ts t =
    let one = wake_entry-state now e ts t in
    let rest = wake_sleepers-state now es (wake_entry now e ts) t in
    roused-both (is_due now e && (e.task == t)) (has_due now t es) (ts t).state
      (wake_entry now e ts t).state ((wake_sleepers now es (wake_entry now e ts)).1 t).state one
      rest

-- One tick inside a time slice: the tasks of the entries that are due become ready, if they were
-- blocked, no other task's state changes, these entries alone are marked unused and the table is otherwise as
-- before, and no switch is made.
pub scheduler_tick-wakes :
    (s : Sched)
    → s.tick_in_slice < 4
    → s.global_tick + 1 < 2 ^ 64
    → (s' : Sched) × (scheduler_tick s ≡ some s')
      × (s'.global_tick ≡ s.global_tick + 1)
      × (s'.current ≡ s.current)
      × Settled s'.global_tick s.sleepers s'.sleepers
      × ((t : ℕ)
          → (s'.tasks t).state ≡ (
              if has_due s'.global_tick t s.sleepers
              then roused (s.tasks t).state
              else (s.tasks t).state))
unfolding scheduler_tick
scheduler_tick-wakes s slice small =
    let now : ℕ = (s.global_tick + 1) % 2 ^ 64 in
    let e : leb 5 (s.tick_in_slice + 1) ≡ false = ground (arith, slice) in
    let (es', ts') = wake_sleepers now s.sleepers s.tasks in
    (
      record s {
        tasks = ts';
        sleepers = es';
        global_tick = now;
        tick_in_slice = s.tick_in_slice + 1;
      },
      rw e,
      omega arith,
      refl,
      wake_sleepers-Settled now s.sleepers s.tasks,
      wake_sleepers-state now s.sleepers s.tasks,
    )
