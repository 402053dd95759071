-- ===== src/Proc/Sched/Turns.antt =====
-- Round robin: which task each call of `schedule` runs.
use yanix.Common.{
  ◌+◌, ◌-◌, ◌%◌, ◌^◌, ◌<◌, ◌≡◌, ◌≢◌, refl, sym, ap, ◌∙◌, true, false, Option, some, List, [], ◌∷◌,
  ◌++◌, arith, ◌==◌, if◌then◌else◌, ne→==, eq→==,
}
use native.Mathlib.Decide.{ℕ_discrete}
use yanix.Proc.Sched.{
  Ptr, Task, State, write, switch_task, schedule, lock_scheduler, unlock_scheduler,
  get_next_from_list,
}
use yanix.Proc.Sched.Chains.{Tasks, Chain, load-ok}

abbrev pub first_of : Tasks → Ptr
first_of [] = 0
first_of ((a, pid) ∷ xs) = a

abbrev pub addresses : Tasks → List Ptr
addresses [] = []
addresses ((a, pid) ∷ xs) = a ∷ addresses xs

pub Chain-first : (c : Ptr → Option Task) (p : Ptr) (xs : Tasks) → Chain c p xs → p ≡ first_of xs
Chain-first c p [] h = h
Chain-first c p ((a, pid) ∷ xs) h = h.0

-- The tasks from one of them on.
pub Chain-drop :
    (c : Ptr → Option Task) (p : Ptr) (xs ys : Tasks)
    → Chain c p (xs ++ ys)
    → Chain c (first_of ys) ys
Chain-drop c p [] ys h = let e = Chain-first c p ys h in (rw e at h)
Chain-drop c p ((a, pid) ∷ xs) ys (e, ne, t, at, id, rest) = Chain-drop c t.next xs ys rest

-- A change that keeps the number and the successor of each task keeps the chain.
pub Chain-same :
    (c d : Ptr → Option Task) (p : Ptr) (xs : Tasks)
    → ((q : Ptr) (t : Task)
        → c q ≡ some t
        → (u : Task) × (d q ≡ some u) × (u.pid ≡ t.pid) × (u.next ≡ t.next))
    → Chain c p xs
    → Chain d p xs
Chain-same c d p [] same h = h
Chain-same c d p ((a, pid) ∷ xs) same (e, ne, t, at, id, rest) =
    let (u, at', id', next') = same a t at in
    let rest' = Chain-same c d t.next xs same rest in
    (e, ne, u, at', id' ∙ id, (rw (← next') at rest'))

-- What a call of `schedule` does, where the turn is at task `a` and `next` is the one behind it.
pub record Turned (s : State) (a next : Ptr) (s' : State) : Type 0 where
  pub running : s'.running ≡ a
  pub ready : s'.ready ≡ record { head = s.ready.head; next = next }
  pub locks : s'.locks ≡ s.locks
  pub sleep : s'.sleep ≡ s.sleep
  pub blocked : s'.blocked ≡ s.blocked
  pub cells :
      (q : Ptr) (t : Task)
      → s.cell q ≡ some t
      → (u : Task) × (s'.cell q ≡ some u) × (u.pid ≡ t.pid) × (u.next ≡ t.next)

-- The cursor is at a task, or null, and then the turn is at the head.
abbrev pub turn : State → Ptr
turn s = if s.ready.next == 0 then s.ready.head else s.ready.next

sliced-cells :
    (c : Ptr → Option Task) (a : Ptr) (t : Task)
    → c a ≡ some t
    → (q : Ptr) (u : Task) → c q ≡ some u
    → (v : Task) × (write c a (record t { sliceused = 0 }) q ≡ some v)
      × (v.pid ≡ u.pid)
      × (v.next ≡ u.next)
sliced-cells c a t at q u e = elim (ℕ_discrete q a) [
  | yes here ↦
      let same : some t ≡ some u = sym at ∙ ap c (sym here) ∙ e in
      (
        record t { sliceused = 0 },
        rw (eq→== q a here) refl,
        ground (arith, same),
        ground (arith, same),
      )
  | no other ↦ (u, rw (ne→== q a other) e, refl, refl)
]

-- `schedule` never faults where the turn is at a task: it runs that task, and the turn goes on to
-- the one behind it; the lists and the lock count are as they were.
pub schedule-Turned :
    (s : State) (a : Ptr) (t : Task)
    → turn s ≡ a
    → a ≢ 0
    → s.cell a ≡ some t
    → s.locks + 1 < 2 ^ 32
    → (s' : State) × (schedule s ≡ some (tt, s')) × Turned s a t.next s'
unfolding schedule lock_scheduler unlock_scheduler get_next_from_list switch_task
schedule-Turned s a t e ne at small =
    let s1 : State = record s { interrupts = false; locks = (s.locks + 1) % 2 ^ 32 } in
    let s2 : State = record s1 { ready = record { head = s.ready.head; next = t.next } } in
    let locks = ((s.locks + 1) % 2 ^ 32 + 2 ^ 32 - 1) % 2 ^ 32 in
    let restored : locks ≡ s.locks = omega arith in
    let on = if locks == 0 then true else false in
    elim (ℕ_discrete s.running a) [
      | yes same ↦ (
        record s2 { locks = locks; interrupts = on },
        rw (e, load-ok a t s1 ne at, ne→== a 0 ne, eq→== s.running a same) refl,
        record {
          running = same;
          ready = refl;
          locks = restored;
          sleep = refl;
          blocked = refl;
          cells = λ q u h. (u, h, refl, refl);
        },
      )
      | no other ↦ (
        record s2 {
          cell = write s.cell a (record t { sliceused = 0 });
          running = a;
          locks = locks;
          interrupts = on;
        },
        rw (e, load-ok a t s1 ne at, ne→== a 0 ne, ne→== s.running a other, load-ok a t s2 ne at)
            refl,
        record {
          running = refl;
          ready = refl;
          locks = restored;
          sleep = refl;
          blocked = refl;
          cells = sliced-cells s.cell a t at;
        },
      )
    ]
