-- ===== src/Proc/Sched.antt =====
-- kernel/proc/sched.c: the lists of tasks, linked by pointers in memory, and the calls that move a
-- task from one to another. A command faults (`none`) where it reads a task through a null or
-- dangling pointer, or walks for longer than its fuel. The switch of stacks and page directories
-- that follows a change of the running task is left out.
pub mod Chains
pub mod Append
pub mod Turns
pub mod Fair
pub mod Remove
pub mod Move
pub mod Block
use yanix.Common.{
  ℕ, zero, suc, ◌+◌, ◌-◌, ◌%◌, ◌^◌, Bool, true, false, ◌||◌, Option, none, some, ◌==◌,
  if◌then◌else◌,
}
use yanix.Common.Int.{ℤ, pos, negsuc}

-- The address of a task, 0 for the null pointer.
abbrev pub Ptr : Type 0
Ptr = ℕ

abbrev pub null : Ptr
null = 0

-- What the scheduler uses of a `task_t`.
pub record Task : Type 0 where
  pub pid : ℕ
  pub next : Ptr
  pub sliceused : ℕ

-- `struct task_list`.
pub record TaskList : Type 0 where
  pub head : Ptr
  pub next : Ptr

-- The tasks in memory, the three lists, `g_runningtask`, `scheduler_locks`, and whether interrupts
-- are enabled.
pub record State : Type 0 where
  pub cell : Ptr → Option Task
  pub ready : TaskList
  pub sleep : TaskList
  pub blocked : TaskList
  pub running : Ptr
  pub locks : ℕ
  pub interrupts : Bool

pub data Which : Type 0 where
  ready_list : Which
  sleep_list : Which
  blocked_list : Which

abbrev pub Cmd : Type 0 → Type 0
Cmd A = State → Option (A × State)

abbrev pub pure : {A : Type 0} → A → Cmd A
pure a s = some (a, s)

abbrev pub and_then : {A B : Type 0} → Option (A × State) → (A → Cmd B) → Option (B × State)
and_then none f = none
and_then (some (a, s)) f = f a s

infixl 5 ◌>>=◌ ◌>>◌
abbrev pub ◌>>=◌ : {A B : Type 0} → Cmd A → (A → Cmd B) → Cmd B
m >>= f = λ s. and_then (m s) f

abbrev pub ◌>>◌ : {B : Type 0} → Cmd (Unit {0}) → Cmd B → Cmd B
m >> k = m >>= λ _. k

abbrev pub fault : {A : Type 0} → Cmd A
fault s = none

abbrev pub write : (Ptr → Option Task) → Ptr → Task → Ptr → Option Task
write cell p t q = if q == p then some t else cell q

abbrev pub list_of : Which → State → TaskList
list_of ready_list s = s.ready
list_of sleep_list s = s.sleep
list_of blocked_list s = s.blocked

abbrev pub with_list : Which → TaskList → State → State
with_list ready_list l s = record s { ready = l }
with_list sleep_list l s = record s { sleep = l }
with_list blocked_list l s = record s { blocked = l }

abbrev pub get_list : Which → Cmd TaskList
get_list w s = some (list_of w s, s)

abbrev pub put_list : Which → TaskList → Cmd (Unit {0})
put_list w l s = some (tt, with_list w l s)

-- `*p`.
pub load : Ptr → Cmd Task
load p s = if p == null then none else elim (s.cell p) [ none ↦ none | some t ↦ some (t, s) ]

-- `p->next = q`.
pub set_next : Ptr → Ptr → Cmd (Unit {0})
set_next p q = do
  t ← load p
  (λ s. some (tt, record s { cell = write s.cell p (record t { next = q }) }))

abbrev pub get_current_task : Cmd Ptr
get_current_task s = some (s.running, s)

unfoldable pub getpid : Cmd ℕ
getpid = do p ← get_current_task; t ← load p; pure t.pid

abbrev pub set_list : Which → Ptr → Cmd (Unit {0})
set_list w task = put_list w (record { head = task; next = task })

-- The walk `while (tmp->next) tmp = tmp->next;`.
pub last_task : (fuel : ℕ) → Ptr → Cmd Ptr
last_task zero tmp = fault
last_task (suc fuel) tmp = do
  t ← load tmp
  if t.next == null then pure tmp else last_task fuel t.next

unfoldable pub add_to_list : (fuel : ℕ) → Which → Ptr → Cmd (Unit {0})
add_to_list fuel w task = do
  l ← get_list w
  set_next task null
  if l.head == null then set_list w task else (do tmp ← last_task fuel l.head; set_next tmp task)

-- The loop of `remove_from_list`; `prev` is null in the first round.
pub remove_loop : (fuel : ℕ) → Which → (task prev tmp : Ptr) → Cmd ℤ
remove_loop zero w task prev tmp = fault
remove_loop (suc fuel) w task prev tmp = if tmp == null then pure (negsuc 0) else (do
  t ← load tmp
  if tmp == task
      then (do if prev == null then set_list w t.next else set_next prev t.next; pure (pos 0))
      else remove_loop fuel w task tmp t.next)

unfoldable pub remove_from_list : (fuel : ℕ) → Which → Ptr → Cmd ℤ
remove_from_list fuel w task = do l ← get_list w; remove_loop fuel w task null l.head

-- The next task in turn, from the head again after the last one.
unfoldable pub get_next_from_list : Which → Cmd Ptr
get_next_from_list w = do
  l ← get_list w
  let next = if l.next == null then l.head else l.next
  t ← load next
  put_list w (record l { next = t.next })
  pure next

abbrev pub get_next_task : Cmd Ptr
get_next_task = get_next_from_list ready_list

abbrev pub remove_from_ready_list : (fuel : ℕ) → Ptr → Cmd ℤ
remove_from_ready_list fuel task = remove_from_list fuel ready_list task

-- The loop over the list from `tmp` on.
pub find_loop : (fuel : ℕ) → (tmp : Ptr) (pid : ℕ) → Cmd Ptr
find_loop zero tmp pid = fault
find_loop (suc fuel) tmp pid =
    if tmp == null
    then pure null
    else (do t ← load tmp; if t.pid == pid then pure tmp else find_loop fuel t.next pid)

unfoldable pub find_task_in_list_by_pid : (fuel : ℕ) → Which → (pid : ℕ) → Cmd Ptr
find_task_in_list_by_pid fuel w pid = do l ← get_list w; find_loop fuel l.head pid

unfoldable pub find_task_by_pid : (fuel : ℕ) → (pid : ℕ) → Cmd Ptr
find_task_by_pid fuel pid = do
  r ← find_task_in_list_by_pid fuel ready_list pid
  if r == null
      then (do
        r ← find_task_in_list_by_pid fuel sleep_list pid
        if r == null then find_task_in_list_by_pid fuel blocked_list pid else pure r)
      else pure r

abbrev pub add_task_to_queue : (fuel : ℕ) → Ptr → Cmd (Unit {0})
add_task_to_queue fuel task = add_to_list fuel ready_list task

unfoldable pub switch_task : Ptr → Cmd (Unit {0})
switch_task next = do
  previous ← get_current_task
  if previous == next || next == null then pure tt else (do
    t ← load next
    (λ s.
        some
          (tt, record s { cell = write s.cell next (record t { sliceused = 0 }); running = next })))

-- `scheduler_locks` is an `unsigned int`.
unfoldable pub lock_scheduler : Cmd (Unit {0})
lock_scheduler s = some (tt, record s { interrupts = false; locks = (s.locks + 1) % 2 ^ 32 })

unfoldable pub unlock_scheduler : Cmd (Unit {0})
unlock_scheduler s =
    let locks = (s.locks + 2 ^ 32 - 1) % 2 ^ 32 in
    some (tt, record s { locks = locks; interrupts = if locks == 0 then true else s.interrupts })

unfoldable pub schedule : Cmd (Unit {0})
schedule = do
  lock_scheduler
  next ← get_next_task
  if next == null then pure tt else switch_task next
  unlock_scheduler

unfoldable pub init_scheduler : (mainloop : Ptr) → Cmd ℤ
init_scheduler mainloop = do
  set_list ready_list mainloop
  set_list sleep_list null
  set_list blocked_list null
  (λ s. some (pos 0, record s { running = mainloop }))

unfoldable pub task_block : (fuel : ℕ) → (pid : ℕ) → Cmd ℤ
task_block fuel pid = do
  lock_scheduler
  task ← find_task_in_list_by_pid fuel ready_list pid
  if task == null then pure (negsuc 0) else (do
    r ← remove_from_list fuel ready_list task
    elim r [
      | negsuc _ ↦ pure (negsuc 0)
      | pos _ ↦ (do add_to_list fuel blocked_list task; unlock_scheduler; schedule; pure (pos 0))
    ])

unfoldable pub task_resume : (fuel : ℕ) → (pid : ℕ) → Cmd ℤ
task_resume fuel pid = do
  lock_scheduler
  task ← find_task_in_list_by_pid fuel blocked_list pid
  if task == null then pure (negsuc 0) else (do
    r ← remove_from_list fuel blocked_list task
    elim r [
      | negsuc _ ↦ pure (negsuc 0)
      | pos _ ↦ (do add_to_list fuel ready_list task; unlock_scheduler; pure (pos 0))
    ])

-- The count from `tmp` on, added to `cnt`.
pub count_loop : (fuel : ℕ) → (tmp cnt : ℕ) → Cmd ℕ
count_loop zero tmp cnt = fault
count_loop (suc fuel) tmp cnt =
    if tmp == null then pure cnt else (do t ← load tmp; count_loop fuel t.next (cnt + 1))

unfoldable pub task_count_list : (fuel : ℕ) → Which → Cmd ℕ
task_count_list fuel w = do l ← get_list w; count_loop fuel l.head 0

unfoldable pub task_count_all : (fuel : ℕ) → Cmd ℕ
task_count_all fuel = do
  a ← task_count_list fuel ready_list
  b ← task_count_list fuel blocked_list
  c ← task_count_list fuel sleep_list
  pure (a + b + c)
