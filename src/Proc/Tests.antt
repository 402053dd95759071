-- ===== src/Proc/Tests.antt =====
-- Runs of kernel/proc/sched.c on two ready tasks and a third one.
use yanix.Common.{◌≡◌, refl, true, false, Option, none, some, [], ◌∷◌, arith, ◌==◌, if◌then◌else◌}
use yanix.Common.Int.{pos, negsuc}
use yanix.Proc.Sched.{Ptr, Task, TaskList, State, task_block, task_resume}
use yanix.Proc.Sched.Chains.{Tasks, Chain, task_resume-locked}
use yanix.Proc.Sched.Fair.{turns, AtCursor, Kept, turns-fair}
use yanix.Proc.Sched.Block.{task_block-Chain}

abbrev three_tasks : Ptr → Option Task
three_tasks p =
    if p == 100
    then some (record { pid = 1; next = 200; sliceused = 0 })
    else if p == 200
    then some (record { pid = 2; next = 0; sliceused = 0 })
    else if p == 300
    then some (record { pid = 3; next = 0; sliceused = 0 })
    else none

abbrev no_tasks : TaskList
no_tasks = record { head = 0; next = 0 }

abbrev both_ready : State
both_ready = record {
  cell = three_tasks;
  ready = record { head = 100; next = 100 };
  sleep = no_tasks;
  blocked = no_tasks;
  running = 100;
  locks = 0;
  interrupts = true;
}

abbrev ready_tasks : Tasks
ready_tasks = (100, 1) ∷ (200, 2) ∷ []

ready_tasks-Chain : Chain three_tasks 100 ready_tasks
ready_tasks-Chain = (
  refl,
  omega arith,
  record { pid = 1; next = 200; sliceused = 0 },
  refl,
  refl,
  (refl, omega arith, record { pid = 2; next = 0; sliceused = 0 }, refl, refl, refl),
)

task_resume-locked_example :
    task_resume 3 2 both_ready
    ≡ some (negsuc 0, record both_ready { interrupts = false; locks = 1 })
task_resume-locked_example =
    task_resume-locked 3 both_ready 2 [] refl refl (omega arith) (omega arith)

-- The same tasks, where the last one is blocked.
abbrev last_blocked : State
last_blocked = record both_ready { blocked = record { head = 300; next = 300 } }

turns-fair_example :
    (s' : State) × (turns 2 both_ready ≡ some (100 ∷ 200 ∷ [], s'))
    × AtCursor s' [] ready_tasks
    × Kept both_ready s'
turns-fair_example = turns-fair [] ready_tasks both_ready (ready_tasks-Chain, refl) (omega arith)

third-Chain : Chain three_tasks 300 ((300, 3) ∷ [])
third-Chain = (refl, omega arith, record { pid = 3; next = 0; sliceused = 0 }, refl, refl, refl)

task_block-Chain_example :
    (s' : State) × (task_block 3 1 last_blocked ≡ some (pos 0, s'))
    × Chain s'.cell s'.ready.head ((200, 2) ∷ [])
    × Chain s'.cell s'.blocked.head ((300, 3) ∷ (100, 1) ∷ [])
    × (s'.running ≡ 200)
    × (s'.locks ≡ 0)
task_block-Chain_example =
    task_block-Chain 3 last_blocked [] ((200, 2) ∷ []) ((300, 3) ∷ []) [] [] 100 1 200 2
      (record {
        from = ready_tasks-Chain;
        to = third-Chain;
        from_distinct = ((omega arith, tt), (tt, tt));
        to_distinct = (tt, tt);
        apart = ((omega arith, tt), ((omega arith, tt), tt));
      })
      refl refl refl (omega arith) (omega arith) (omega arith)
