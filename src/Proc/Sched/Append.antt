-- ===== src/Proc/Sched/Append.antt =====
-- `add_to_list`: a task goes to the end of its list.
use yanix.Common.{
  ℕ, zero, suc, ◌≤◌, ◌<◌, ◌≡◌, ◌≢◌, refl, sym, ap, ◌∙◌, Option, some, [], ◌∷◌, ◌++◌, arith, length,
  ne→==, eq→==,
}
use yanix.Proc.Sched.{
  Ptr, Task, TaskList, State, Which, list_of, with_list, write, set_next, last_task, add_to_list,
  ready_list, sleep_list, blocked_list,
}
use yanix.Proc.Sched.Chains.{Tasks, Chain, load-ok}

-- A chain ends where its last task does: the address of the last task.
abbrev pub last_of : Ptr → Tasks → Ptr
last_of d [] = d
last_of d ((a, pid) ∷ xs) = last_of a xs

-- No task of the list is at the address.
abbrev pub ClearOf : Ptr → Tasks → Type 0
ClearOf q [] = Unit {0}
ClearOf q ((a, pid) ∷ xs) = (q ≢ a) × ClearOf q xs

abbrev pub Distinct : Tasks → Type 0
Distinct [] = Unit {0}
Distinct ((a, pid) ∷ xs) = ClearOf a xs × Distinct xs

pub write-ne : (c : Ptr → Option Task) (p q : Ptr) (t : Task) → q ≢ p → write c p t q ≡ c q
write-ne c p q t ne = rw (ne→== q p ne) refl

pub write_self : (c : Ptr → Option Task) (p : Ptr) (t : Task) → write c p t p ≡ some t
write_self c p t = rw (eq→== p p refl) refl

-- A chain survives a write to a task that is not on it.
pub Chain-write :
    (c : Ptr → Option Task) (p q : Ptr) (t : Task) (xs : Tasks)
    → Chain c p xs
    → ClearOf q xs
    → Chain (write c q t) p xs
Chain-write c p q t [] h out = h
Chain-write c p q t ((a, pid) ∷ xs) (e, ne, u, at, id, rest) (q_a, out) =
    (e, ne, u, write-ne c q a t (λ r. q_a (sym r)) ∙ at, id, Chain-write c u.next q t xs rest out)

ClearOf-last : (q b pid : ℕ) (xs : Tasks) → ClearOf q ((b, pid) ∷ xs) → q ≢ last_of b xs
ClearOf-last q b pid [] (ne, out) = ne
ClearOf-last q b pid ((c, n) ∷ xs) (ne, out) = ClearOf-last q c n xs out

-- The task behind the last one.
Chain-append :
    (c : Ptr → Option Task) (p a pid n : ℕ) (xs : Tasks) (q : Ptr) (t : Task)
    → Chain c p ((a, pid) ∷ xs)
    → Distinct ((a, pid) ∷ xs)
    → ClearOf q ((a, pid) ∷ xs)
    → q ≢ 0
    → c q ≡ some t
    → t.next ≡ 0
    → t.pid ≡ n
    → (u : Task) × (last_of a xs ≢ 0)
      × (c (last_of a xs) ≡ some u)
      × Chain (write c (last_of a xs) (record u { next = q })) p ((a, pid) ∷ xs ++ (q, n) ∷ [])
Chain-append c p a pid n [] q t (e, ne, u, at, id, rest) d (q_a, out) q0 at_q end_q id_q = (
  u,
  ne,
  at,
  (
    e,
    ne,
    record u { next = q },
    write_self c a (record u { next = q }),
    id,
    (refl, q0, t, write-ne c a q (record u { next = q }) q_a ∙ at_q, id_q, end_q),
  ),
)
Chain-append c p a pid n ((b, pid') ∷ xs) q t (e, ne, u, at, id, rest) ((a_b, a_out), d) (q_a, out)
      q0 at_q end_q id_q =
    let (v, ne', at', chain) =
      Chain-append c u.next b pid' n xs q t rest d out q0 at_q end_q id_q in
    (
      v,
      ne',
      at',
      (
        e,
        ne,
        u,
        write-ne c (last_of b xs) a (record v { next = q }) (ClearOf-last a b pid' xs (a_b, a_out))
            ∙ at,
        id,
        chain,
      ),
    )

last_task-last :
    (xs : Tasks) (fuel : ℕ) (s : State) (p a pid : ℕ)
    → Chain s.cell p ((a, pid) ∷ xs)
    → length xs < fuel
    → last_task fuel p s ≡ some (last_of a xs, s)
unfolding last_task
last_task-last xs zero s p a pid h lt = absurd (omega arith)
last_task-last [] (suc fuel) s p a pid (e, ne, t, at, id, rest) lt =
    rw (e, load-ok a t s ne at, eq→== t.next 0 rest) refl
last_task-last ((b, n) ∷ xs) (suc fuel) s p a pid (e, ne, t, at, id, rest) lt =
    let next_ne : t.next ≢ 0 = λ r. rest.1 (sym rest.0 ∙ r) in
    rw (e, load-ok a t s ne at, ne→== t.next 0 next_ne)
      (last_task-last xs fuel s t.next b n rest (omega arith))

pub set_next-ok :
    (p q : Ptr) (t : Task) (s : State)
    → p ≢ 0
    → s.cell p ≡ some t
    → set_next p q s ≡ some (tt, record s { cell = write s.cell p (record t { next = q }) })
unfolding set_next
set_next-ok p q t s ne at = rw (load-ok p t s ne at) refl

abbrev pub with_cell : State → (Ptr → Option Task) → State
with_cell s c = record s { cell = c }

pub list_of-with_cell :
    (w : Which) (s : State) (c : Ptr → Option Task) → list_of w (with_cell s c) ≡ list_of w s
list_of-with_cell ready_list s c = refl
list_of-with_cell sleep_list s c = refl
list_of-with_cell blocked_list s c = refl

pub list_of-with_list : (w : Which) (l : TaskList) (s : State) → list_of w (with_list w l s) ≡ l
list_of-with_list ready_list l s = refl
list_of-with_list sleep_list l s = refl
list_of-with_list blocked_list l s = refl

pub cell-with_list : (w : Which) (l : TaskList) (s : State) → (with_list w l s).cell ≡ s.cell
cell-with_list ready_list l s = refl
cell-with_list sleep_list l s = refl
cell-with_list blocked_list l s = refl

-- The list after `add_to_list` of the task.
abbrev pub added : Which → Tasks → Ptr → State → State
added w [] q s = with_list w (record { head = q; next = q }) s
added w (x ∷ xs) q s = s

pub cell-added :
    (w : Which) (xs : Tasks) (q : Ptr) (s : State) (c : Ptr → Option Task)
    → (added w xs q (with_cell s c)).cell ≡ c
cell-added w [] q s c = cell-with_list w (record { head = q; next = q }) (with_cell s c)
cell-added w (x ∷ xs) q s c = refl

-- `add_to_list` of a task that is not on the list never faults: the task is the last of the list,
-- the other tasks keep their order, and no task off the list changes.
pub add_to_list-added :
    (fuel : ℕ) (w : Which) (s : State) (xs : Tasks) (q : Ptr) (t : Task)
    → Chain s.cell (list_of w s).head xs
    → Distinct xs
    → ClearOf q xs
    → q ≢ 0
    → s.cell q ≡ some t
    → length xs ≤ fuel
    → (d : Ptr → Option Task) × (add_to_list fuel w q s ≡ some (tt, added w xs q (with_cell s d)))
      × Chain d (list_of w (added w xs q (with_cell s d))).head (xs ++ (q, t.pid) ∷ [])
      × ((r : Ptr) → r ≢ q → ClearOf r xs → d r ≡ s.cell r)
unfolding add_to_list
add_to_list-added fuel w s [] q t h d out q0 at le =
    let u : Task = record t { next = 0 } in
    let c = write s.cell q u in
    let l : TaskList = record { head = q; next = q } in
    (
      c,
      rw (eq→== (list_of w s).head 0 h, set_next-ok q 0 t s q0 at) refl,
      (
        ap (λ (k : TaskList). k.head) (list_of-with_list w l (with_cell s c)),
        q0,
        u,
        write_self s.cell q u,
        refl,
        refl,
      ),
      λ r ne clear. write-ne s.cell q r u ne,
    )
add_to_list-added fuel w s ((a, pid) ∷ xs) q t h d out q0 at le =
    let u : Task = record t { next = 0 } in
    let c1 = write s.cell q u in
    let s1 = with_cell s c1 in
    let p = (list_of w s).head in
    let chain = Chain-write s.cell p q u ((a, pid) ∷ xs) h out in
    let (v, ne, at_v, longer) =
      Chain-append c1 p a pid t.pid xs q u chain d out q0 (write_self s.cell q u) refl refl in
    let last = last_of a xs in
    let v' : Task = record v { next = q } in
    let c2 = write c1 last v' in
    let walk = last_task-last xs fuel s1 p a pid chain (omega arith) in
    let p0 : p ≢ 0 = λ r. h.1 (sym h.0 ∙ r) in
    (
      c2,
      rw (ne→== p 0 p0, set_next-ok q 0 t s q0 at, walk) (set_next-ok last q v s1 ne at_v),
      (rw (list_of-with_cell w s c2) longer),
      λ r other clear.
          write-ne c1 last r v' (ClearOf-last r a pid xs clear) ∙ write-ne s.cell q r u other,
    )

-- `add_to_list` of a task that is not on the list never faults: the task is the last of the list,
-- and the other tasks keep their order.
pub add_to_list-Chain :
    (fuel : ℕ) (w : Which) (s : State) (xs : Tasks) (q : Ptr) (t : Task)
    → Chain s.cell (list_of w s).head xs
    → Distinct xs
    → ClearOf q xs
    → q ≢ 0
    → s.cell q ≡ some t
    → length xs ≤ fuel
    → (s' : State) × (add_to_list fuel w q s ≡ some (tt, s'))
      × Chain s'.cell (list_of w s').head (xs ++ (q, t.pid) ∷ [])
add_to_list-Chain fuel w s xs q t h d out q0 at le =
    let (c, run, chain, same) = add_to_list-added fuel w s xs q t h d out q0 at le in
    (added w xs q (with_cell s c), run, rw (cell-added w xs q s c) chain)
