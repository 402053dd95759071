-- ===== src/Proc/Sched/Chains.antt =====
-- The task lists of sched.c as chains of tasks, and what the calls make of them.
use yanix.Common.{
  ℕ, zero, suc, ◌+◌, ◌%◌, ◌^◌, ◌<◌, ◌≡◌, ◌≢◌, refl, ap, ◌∙◌, inl, inr, true, false, Option, some,
  List, [], ◌∷◌, arith, ◌==◌, if◌then◌else◌, length, Bool-cases, ne→==, eq→==,
}
use yanix.Common.Int.{negsuc}
use yanix.Proc.Sched.{
  Ptr, Task, State, Which, list_of, load, find_loop, find_task_in_list_by_pid, task_resume,
  count_loop, task_count_list, lock_scheduler, blocked_list,
}

-- Address and process number of each task, in order.
abbrev pub Tasks : Type 0
Tasks = List (Ptr × ℕ)

-- The tasks `xs` are linked from `p` on, the last of them to null.
abbrev pub Chain : (Ptr → Option Task) → Ptr → Tasks → Type 0
Chain cell p [] = p ≡ 0
Chain cell p ((a, pid) ∷ xs) =
    (p ≡ a) × (a ≢ 0) × (t : Task) × (cell a ≡ some t) × (t.pid ≡ pid) × Chain cell t.next xs

-- The first task with the number, or null.
abbrev pub first_pid : ℕ → Tasks → Ptr
first_pid pid [] = 0
first_pid pid ((a, p) ∷ xs) = if p == pid then a else first_pid pid xs

pub load-ok : (p : Ptr) (t : Task) (s : State) → p ≢ 0 → s.cell p ≡ some t → load p s ≡ some (t, s)
unfolding load
load-ok p t s ne at = rw (ne→== p 0 ne, at)

find_loop-first :
    (xs : Tasks) (fuel : ℕ) (s : State) (p pid : ℕ)
    → Chain s.cell p xs
    → length xs < fuel
    → find_loop fuel p pid s ≡ some (first_pid pid xs, s)
unfolding find_loop
find_loop-first xs zero s p pid h lt = absurd (omega arith)
find_loop-first [] (suc fuel) s p pid h lt = rw (eq→== p 0 h) refl
find_loop-first ((a, n) ∷ xs) (suc fuel) s p pid (e, ne, t, at, id, rest) lt =
    let run = find_loop-first xs fuel s t.next pid rest (omega arith) in
    elim (Bool-cases (t.pid == pid)) [
      | inl here ↦
          rw (e, ne→== a 0 ne, load-ok a t s ne at, here)
            (let here' : (n == pid) ≡ true = rw id at here in rw here' refl)
      | inr other ↦
          rw (e, ne→== a 0 ne, load-ok a t s ne at, other, run)
            (let other' : (n == pid) ≡ false = rw id at other in rw other' refl)
    ]

-- `find_task_in_list_by_pid` never faults on a linked list: it returns the first task with the
-- number, or null, and changes nothing.
pub find_task-first :
    (fuel : ℕ) (w : Which) (s : State) (pid : ℕ) (xs : Tasks)
    → Chain s.cell (list_of w s).head xs
    → length xs < fuel
    → find_task_in_list_by_pid fuel w pid s ≡ some (first_pid pid xs, s)
unfolding find_task_in_list_by_pid
find_task-first fuel w s pid xs h lt = find_loop-first xs fuel s (list_of w s).head pid h lt

count_loop-length :
    (xs : Tasks) (fuel : ℕ) (s : State) (p cnt : ℕ)
    → Chain s.cell p xs
    → length xs < fuel
    → count_loop fuel p cnt s ≡ some (cnt + length xs, s)
unfolding count_loop
count_loop-length xs zero s p cnt h lt = absurd (omega arith)
count_loop-length [] (suc fuel) s p cnt h lt =
    rw (eq→== p 0 h) (ap (λ n. some (n, s)) {x = cnt} (omega arith))
count_loop-length ((a, n) ∷ xs) (suc fuel) s p cnt (e, ne, t, at, id, rest) lt =
    rw (e, ne→== a 0 ne, load-ok a t s ne at)
      (count_loop-length xs fuel s t.next (cnt + 1) rest (omega arith)
        ∙ ap (λ n. some (n, s)) {x = cnt + 1 + length xs} (omega arith))

-- `task_count_list` never faults on a linked list and returns its length.
pub task_count-length :
    (fuel : ℕ) (w : Which) (s : State) (xs : Tasks)
    → Chain s.cell (list_of w s).head xs
    → length xs < fuel
    → task_count_list fuel w s ≡ some (length xs, s)
unfolding task_count_list
task_count-length fuel w s xs h lt =
    count_loop-length xs fuel s (list_of w s).head 0 h lt
    ∙ ap (λ n. some (n, s)) {x = 0 + length xs} (omega arith)

-- `task_resume` of a process that is not blocked returns -1 with the scheduler still locked: the
-- lock count is one higher and interrupts are off.
pub task_resume-locked :
    (fuel : ℕ) (s : State) (pid : ℕ) (xs : Tasks)
    → Chain s.cell s.blocked.head xs
    → first_pid pid xs ≡ 0
    → length xs < fuel
    → s.locks + 1 < 2 ^ 32
    → task_resume fuel pid s ≡ some (negsuc 0, record s { interrupts = false; locks = s.locks + 1 })
unfolding task_resume lock_scheduler
task_resume-locked fuel s pid xs h none' lt small =
    let s1 : State = record s { interrupts = false; locks = s.locks + 1 } in
    let up : (s.locks + 1) % 2 ^ 32 ≡ s.locks + 1 = omega arith in
    let found = find_task-first fuel blocked_list s1 pid xs h lt in rw (up, found, none') refl
