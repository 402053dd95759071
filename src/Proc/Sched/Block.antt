-- ===== src/Proc/Sched/Block.antt =====
-- `task_block` and `task_resume`: a task leaves the ready list and comes back.
use yanix.Common.{
  ℕ, ◌+◌, ◌-◌, ◌%◌, ◌^◌, ◌≤◌, ◌<◌, ◌≡◌, ◌≢◌, refl, ap, ◌∙◌, true, false, Option, some, [], ◌∷◌,
  ◌++◌, arith, ◌==◌, if◌then◌else◌, length, ne→==, length-append,
}
use yanix.Common.Int.{pos}
use yanix.Proc.Sched.{
  Ptr, Task, TaskList, State, Which, with_list, remove_from_list, add_to_list, ready_list,
  sleep_list, blocked_list, task_block, task_resume, find_task_in_list_by_pid, schedule,
  lock_scheduler, unlock_scheduler,
}
use yanix.Proc.Sched.Chains.{Tasks, Chain, first_pid, find_task-first}
use yanix.Proc.Sched.Append.{with_cell, cell-added}
use yanix.Proc.Sched.Turns.{first_of, turn, Chain-drop, Chain-same, schedule-Turned}
use yanix.Proc.Sched.Remove.{removed}
use yanix.Proc.Sched.Move.{Before, moved, move-Chain, Chain-at, list_of-added}

locks-with_list : (w : Which) (l : TaskList) (s : State) → (with_list w l s).locks ≡ s.locks
locks-with_list ready_list l s = refl
locks-with_list sleep_list l s = refl
locks-with_list blocked_list l s = refl

locks-removed : (w : Which) (xs ys : Tasks) (s : State) → (removed w xs ys s).locks ≡ s.locks
locks-removed w [] ys s = locks-with_list w (record { head = first_of ys; next = first_of ys }) s
locks-removed w (x ∷ xs) ys s = refl

locks-moved :
    (w v : Which) (xs ys zs : Tasks) (a : Ptr) (d : Ptr → Option Task) (s : State)
    → (moved w v xs ys zs a d s).locks ≡ s.locks
locks-moved w v xs ys [] a d s =
    locks-with_list v (record { head = a; next = a }) (with_cell (removed w xs ys s) d)
    ∙ locks-removed w xs ys s
locks-moved w v xs ys (z ∷ zs) a d s = locks-removed w xs ys s

-- The states after `lock_scheduler` and `unlock_scheduler`.
abbrev pub locked : State → State
locked s = record s { interrupts = false; locks = (s.locks + 1) % 2 ^ 32 }

abbrev pub unlocked : State → State
unlocked s =
    let locks = (s.locks + 2 ^ 32 - 1) % 2 ^ 32 in
    record s { locks = locks; interrupts = if locks == 0 then true else s.interrupts }

task_resume-steps :
    (fuel : ℕ) (s s1 s2 : State) (a pid : ℕ)
    → a ≢ 0
    → find_task_in_list_by_pid fuel blocked_list pid (locked s) ≡ some (a, locked s)
    → remove_from_list fuel blocked_list a (locked s) ≡ some (pos 0, s1)
    → add_to_list fuel ready_list a s1 ≡ some (tt, s2)
    → task_resume fuel pid s ≡ some (pos 0, unlocked s2)
unfolding task_resume lock_scheduler unlock_scheduler
task_resume-steps fuel s s1 s2 a pid a0 find out back = rw (find, ne→== a 0 a0, out, back) refl

task_block-steps :
    (fuel : ℕ) (s s1 s2 s3 : State) (a pid : ℕ)
    → a ≢ 0
    → find_task_in_list_by_pid fuel ready_list pid (locked s) ≡ some (a, locked s)
    → remove_from_list fuel ready_list a (locked s) ≡ some (pos 0, s1)
    → add_to_list fuel blocked_list a s1 ≡ some (tt, s2)
    → schedule (unlocked s2) ≡ some (tt, s3)
    → task_block fuel pid s ≡ some (pos 0, s3)
unfolding task_block lock_scheduler unlock_scheduler
task_block-steps fuel s s1 s2 s3 a pid a0 find out back next =
    rw (find, ne→== a 0 a0, out, back, next) refl

-- `task_resume` of a blocked task never faults: it returns 0, the task is the last of the ready
-- list, the other tasks of both lists keep their order, and the scheduler is locked as often as
-- before.
pub task_resume-Chain :
    (fuel : ℕ) (s : State) (xs ys zs : Tasks) (a pid : ℕ)
    → Before s blocked_list ready_list xs ys zs a pid
    → first_pid pid (xs ++ (a, pid) ∷ ys) ≡ a
    → length (xs ++ (a, pid) ∷ ys) < fuel
    → length zs ≤ fuel
    → s.locks + 1 < 2 ^ 32
    → (s' : State) × (task_resume fuel pid s ≡ some (pos 0, s'))
      × Chain s'.cell s'.ready.head (zs ++ (a, pid) ∷ [])
      × Chain s'.cell s'.blocked.head (xs ++ ys)
      × (s'.locks ≡ s.locks)
task_resume-Chain fuel s xs ys zs a pid b first lt le small =
    let s0 = locked s in
    let find = find_task-first fuel blocked_list s0 pid (xs ++ (a, pid) ∷ ys) b.from lt in
    let b0 : Before s0 blocked_list ready_list xs ys zs a pid = record {
      from = b.from;
      to = b.to;
      from_distinct = b.from_distinct;
      to_distinct = b.to_distinct;
      apart = b.apart;
    } in
    let shorter : length xs < fuel = (let e = length-append xs ((a, pid) ∷ ys) in omega arith) in
    let (c, d, run, run', from, to) =
      move-Chain fuel s0 blocked_list ready_list xs ys zs a pid (λ l r. refl) (λ l r. refl) b0
        shorter le in
    let s1 = moved blocked_list ready_list xs ys zs a d (with_cell s0 c) in
    let locked : s1.locks ≡ (s.locks + 1) % 2 ^ 32 =
      locks-moved blocked_list ready_list xs ys zs a d (with_cell s0 c) in
    let cells : s1.cell ≡ d =
      cell-added ready_list zs a (removed blocked_list xs ys (with_cell s0 c)) d in
    let a0 = (Chain-at s.cell s.blocked.head xs ys a pid b.from).0 in
    (
      unlocked s1,
      task_resume-steps fuel s (removed blocked_list xs ys (with_cell s0 c)) s1 a pid a0
          (find ∙ ap (λ q. some (q, s0)) first) run run',
      rw cells to,
      rw cells from,
      omega arith,
    )

turn-removed :
    (xs ys : Tasks) (s : State) (d : Ptr → Option Task)
    → turn (removed ready_list xs ys (with_cell (locked s) d)) ≡ turn (removed ready_list xs ys s)
turn-removed [] ys s d = refl
turn-removed (x ∷ xs) ys s d = refl

-- `task_block` of a ready task, where the turn is at another task `c` once it is off the list,
-- never faults: it returns 0 and `c` runs. The task is the last of the blocked list, the other
-- tasks of both lists keep their order, and the scheduler is locked as often as before.
pub task_block-Chain :
    (fuel : ℕ) (s : State) (xs ys zs before after : Tasks) (a pid c m : ℕ)
    → Before s ready_list blocked_list xs ys zs a pid
    → first_pid pid (xs ++ (a, pid) ∷ ys) ≡ a
    → xs ++ ys ≡ before ++ (c, m) ∷ after
    → turn (removed ready_list xs ys s) ≡ c
    → length (xs ++ (a, pid) ∷ ys) < fuel
    → length zs ≤ fuel
    → s.locks + 1 < 2 ^ 32
    → (s' : State) × (task_block fuel pid s ≡ some (pos 0, s'))
      × Chain s'.cell s'.ready.head (xs ++ ys)
      × Chain s'.cell s'.blocked.head (zs ++ (a, pid) ∷ [])
      × (s'.running ≡ c)
      × (s'.locks ≡ s.locks)
task_block-Chain fuel s xs ys zs before after a pid c m b first split cursor lt le small =
    let s0 = locked s in
    let find = find_task-first fuel ready_list s0 pid (xs ++ (a, pid) ∷ ys) b.from lt in
    let b0 : Before s0 ready_list blocked_list xs ys zs a pid = record {
      from = b.from;
      to = b.to;
      from_distinct = b.from_distinct;
      to_distinct = b.to_distinct;
      apart = b.apart;
    } in
    let shorter : length xs < fuel = (let e = length-append xs ((a, pid) ∷ ys) in omega arith) in
    let (c1, d, run, run', from, to) =
      move-Chain fuel s0 ready_list blocked_list xs ys zs a pid (λ l r. refl) (λ l r. refl) b0
        shorter le in
    let s1 = removed ready_list xs ys (with_cell s0 c1) in
    let s2 = moved ready_list blocked_list xs ys zs a d (with_cell s0 c1) in
    let locked2 : s2.locks ≡ (s.locks + 1) % 2 ^ 32 =
      locks-moved ready_list blocked_list xs ys zs a d (with_cell s0 c1) in
    let restored : (unlocked s2).locks ≡ s.locks = omega arith in
    let cells : s2.cell ≡ d = cell-added blocked_list zs a s1 d in
    let ready : s2.ready ≡ s1.ready =
      list_of-added blocked_list ready_list zs a (with_cell s1 d) (λ l r. refl) in
    let at_turn : turn (unlocked s2) ≡ c =
      ap (λ (l : TaskList). if l.next == 0 then l.head else l.next) ready
      ∙ turn-removed xs ys s c1
      ∙ cursor in
    let whole : Chain s2.cell s2.ready.head (xs ++ ys) = rw cells from in
    let rest = Chain-drop s2.cell s2.ready.head before ((c, m) ∷ after) (rw split at whole) in
    let (s3, next, turned) =
      schedule-Turned (unlocked s2) c rest.2 at_turn rest.1 rest.3 (rw restored small) in
    let a0 = (Chain-at s.cell s.ready.head xs ys a pid b.from).0 in
    let ready3 = Chain-same s2.cell s3.cell s2.ready.head (xs ++ ys) turned.cells whole in
    let blocked2 : Chain s2.cell s2.blocked.head (zs ++ (a, pid) ∷ []) = rw cells to in
    let blocked3 =
      Chain-same s2.cell s3.cell s2.blocked.head (zs ++ (a, pid) ∷ []) turned.cells blocked2 in
    (
      s3,
      task_block-steps fuel s s1 s2 s3 a pid a0 (find ∙ ap (λ q. some (q, s0)) first) run run' next,
      rw (ap (λ (l : TaskList). l.head) turned.ready) ready3,
      rw (ap (λ (l : TaskList). l.head) turned.blocked) blocked3,
      turned.running,
      turned.locks ∙ restored,
    )
