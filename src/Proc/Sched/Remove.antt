-- ===== src/Proc/Sched/Remove.antt =====
-- `remove_from_list`: a task leaves its list.
use yanix.Common.{
  ℕ, zero, suc, ◌<◌, ◌≡◌, ◌≢◌, refl, ◌∙◌, Option, some, [], ◌∷◌, ◌++◌, arith, length, ne→==, eq→==,
}
use yanix.Common.Int.{pos}
use yanix.Proc.Sched.{
  Ptr, Task, TaskList, State, Which, list_of, with_list, write, remove_loop, remove_from_list,
}
use yanix.Proc.Sched.Chains.{Tasks, Chain, load-ok}
use yanix.Proc.Sched.Append.{
  ClearOf, Distinct, write-ne, write_self, Chain-write, set_next-ok, with_cell, list_of-with_list,
  list_of-with_cell,
}
use yanix.Proc.Sched.Turns.{first_of, Chain-first}

pub ClearOf-append : (q : Ptr) (xs ys : Tasks) → ClearOf q (xs ++ ys) → ClearOf q xs × ClearOf q ys
ClearOf-append q [] ys h = (tt, h)
ClearOf-append q ((a, pid) ∷ xs) ys (ne, h) = let (l, r) = ClearOf-append q xs ys h in ((ne, l), r)

-- The task at `prev`, and behind it the chain of `xs`.
abbrev Behind : (Ptr → Option Task) → (prev pid : ℕ) → Tasks → Type 0
Behind c prev pid xs = (u : Task) × (c prev ≡ some u) × (u.pid ≡ pid) × Chain c u.next xs

remove_loop-Behind :
    (xs ys : Tasks) (fuel : ℕ) (s : State) (w : Which) (prev n a pid tmp : ℕ)
    → prev ≢ 0
    → Behind s.cell prev n (xs ++ (a, pid) ∷ ys)
    → ClearOf prev (xs ++ (a, pid) ∷ ys)
    → Distinct (xs ++ (a, pid) ∷ ys)
    → tmp ≡ first_of (xs ++ (a, pid) ∷ ys)
    → length xs < fuel
    → (d : Ptr → Option Task) × (remove_loop fuel w a prev tmp s ≡ some (pos 0, with_cell s d))
      × Behind d prev n (xs ++ ys)
      × ((q : Ptr) → q ≢ prev → ClearOf q xs → d q ≡ s.cell q)
unfolding remove_loop
remove_loop-Behind xs ys zero s w prev n a pid tmp ne h clear d first lt = absurd (omega arith)
remove_loop-Behind [] ys (suc fuel) s w prev n a pid tmp ne
      (u, at, id, (e, a0, t, at_a, id_a, rest)) (p_a, clear) (a_out, d) first lt =
    let u' : Task = record u { next = t.next } in
    (
      write s.cell prev u',
      rw
          (
            first,
            ne→== a 0 a0,
            load-ok a t s a0 at_a,
            eq→== a a refl,
            ne→== prev 0 ne,
            set_next-ok prev t.next u s ne at,
          )
          refl,
      (u', write_self s.cell prev u', id, Chain-write s.cell t.next prev u' ys rest clear),
      λ q other out. write-ne s.cell prev q u' other,
    )
remove_loop-Behind ((b, m) ∷ xs) ys (suc fuel) s w prev n a pid tmp ne
      (u, at, id, (e, b0, t, at_b, id_b, rest)) (p_b, clear) (b_out, dis) first lt =
    let b_a = (ClearOf-append b xs ((a, pid) ∷ ys) b_out).1.0 in
    let p_xs = (ClearOf-append prev xs ((a, pid) ∷ ys) clear).0 in
    let (d, run, behind, same) =
      remove_loop-Behind xs ys fuel s w b m a pid t.next b0 (t, at_b, id_b, rest) b_out dis
        (Chain-first s.cell t.next (xs ++ (a, pid) ∷ ys) rest) (omega arith) in
    (
      d,
      rw (first, ne→== b 0 b0, load-ok b t s b0 at_b, ne→== b a b_a) run,
      (u, same prev p_b p_xs ∙ at, id, (e, b0, behind.0, behind.1, behind.2, behind.3)),
      λ q other (q_b, out). same q q_b out,
    )

-- The list after the task behind `xs` is gone.
abbrev pub removed : Which → (xs ys : Tasks) → State → State
removed w [] ys s = with_list w (record { head = first_of ys; next = first_of ys }) s
removed w (x ∷ xs) ys s = s

-- `remove_from_list` of a task on the list never faults, and returns 0: the other tasks keep their
-- order. The turn of the list moves only where its head goes: to the new head.
pub remove_from_list-Chain :
    (fuel : ℕ) (w : Which) (s : State) (xs ys : Tasks) (a pid : ℕ)
    → Chain s.cell (list_of w s).head (xs ++ (a, pid) ∷ ys)
    → Distinct (xs ++ (a, pid) ∷ ys)
    → length xs < fuel
    → (d : Ptr → Option Task) × (remove_from_list fuel w a s
        ≡ some (pos 0, removed w xs ys (with_cell s d)))
      × Chain d (list_of w (removed w xs ys (with_cell s d))).head (xs ++ ys)
      × ((q : Ptr) → ClearOf q xs → d q ≡ s.cell q)
unfolding remove_from_list remove_loop
remove_from_list-Chain zero w s xs ys a pid h dis lt = absurd (omega arith)
remove_from_list-Chain (suc fuel) w s [] ys a pid (e, a0, t, at, id, rest) dis lt =
    let next = Chain-first s.cell t.next ys rest in
    (
      s.cell,
      rw (e, ne→== a 0 a0, load-ok a t s a0 at, eq→== a a refl, next) refl,
      (let l : TaskList = record { head = first_of ys; next = first_of ys } in
          let chain = rw next at rest in rw (list_of-with_list w l (with_cell s s.cell)) chain),
      λ q out. refl,
    )
remove_from_list-Chain (suc fuel) w s ((b, n) ∷ xs) ys a pid (e, b0, t, at, id, rest) (b_out, dis)
      lt =
    let b_a = (ClearOf-append b xs ((a, pid) ∷ ys) b_out).1.0 in
    let (d, run, behind, same) =
      remove_loop-Behind xs ys fuel s w b n a pid t.next b0 (t, at, id, rest) b_out dis
        (Chain-first s.cell t.next (xs ++ (a, pid) ∷ ys) rest) (omega arith) in
    (
      d,
      rw (e, ne→== b 0 b0, load-ok b t s b0 at, ne→== b a b_a) run,
      rw (list_of-with_cell w s d) (e, b0, behind.0, behind.1, behind.2, behind.3),
      λ q (q_b, out). same q q_b out,
    )
