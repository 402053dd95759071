-- ===== src/Proc/Sched/Move.antt =====
-- A task goes from one list to another: what `task_block` and `task_resume` do to the lists.
use yanix.Common.{ℕ, ◌≤◌, ◌<◌, ◌≡◌, ◌≢◌, refl, sym, ap, ◌∙◌, Option, some, [], ◌∷◌, ◌++◌, length}
use yanix.Common.Int.{pos}
use yanix.Proc.Sched.{
  Ptr, Task, TaskList, State, Which, list_of, with_list, remove_from_list, add_to_list,
}
use yanix.Proc.Sched.Chains.{Tasks, Chain}
use yanix.Proc.Sched.Append.{
  ClearOf, Distinct, with_cell, list_of-with_cell, cell-with_list, added, add_to_list-added,
}
use yanix.Proc.Sched.Turns.{first_of}
use yanix.Proc.Sched.Remove.{ClearOf-append, removed, remove_from_list-Chain}

-- No task of `us` is at the address of a task of `zs`.
abbrev pub Apart : (zs us : Tasks) → Type 0
Apart zs [] = Unit {0}
Apart zs ((r, n) ∷ us) = ClearOf r zs × Apart zs us

Apart-rest :
    (zs xs ys : Tasks) (a pid : ℕ)
    → Apart zs (xs ++ (a, pid) ∷ ys)
    → ClearOf a zs × Apart zs (xs ++ ys)
Apart-rest zs [] ys a pid h = h
Apart-rest zs ((b, n) ∷ xs) ys a pid (out, h) =
    let (l, r) = Apart-rest zs xs ys a pid h in (l, (out, r))

Apart-nil : (us : Tasks) → Apart [] us
Apart-nil [] = tt
Apart-nil ((r, n) ∷ us) = (tt, Apart-nil us)

Apart-cons : (b n : ℕ) (zs us : Tasks) → ClearOf b us → Apart zs us → Apart ((b, n) ∷ zs) us
Apart-cons b n zs [] out h = tt
Apart-cons b n zs ((r, m) ∷ us) (ne, out) (clear, h) =
    ((λ e. ne (sym e), clear), Apart-cons b n zs us out h)

Apart-uncons : (b n : ℕ) (zs us : Tasks) → Apart ((b, n) ∷ zs) us → ClearOf b us × Apart zs us
Apart-uncons b n zs [] h = (tt, tt)
Apart-uncons b n zs ((r, m) ∷ us) ((ne, clear), h) =
    let (l, r') = Apart-uncons b n zs us h in ((λ e. ne (sym e), l), (clear, r'))

Apart-swap : (zs us : Tasks) → Apart zs us → Apart us zs
Apart-swap [] us h = tt
Apart-swap ((b, n) ∷ zs) us h =
    let (out, rest) = Apart-uncons b n zs us h in (out, Apart-swap zs us rest)

Apart-left : (xs ys zs : Tasks) → Apart (xs ++ ys) zs → Apart xs zs
Apart-left xs ys [] h = tt
Apart-left xs ys ((r, n) ∷ zs) (out, h) = ((ClearOf-append r xs ys out).0, Apart-left xs ys zs h)

Distinct-rest : (xs ys : Tasks) (a pid : ℕ) → Distinct (xs ++ (a, pid) ∷ ys) → ClearOf a (xs ++ ys)
Distinct-rest [] ys a pid (out, d) = out
Distinct-rest ((b, n) ∷ xs) ys a pid (out, d) =
    let b_a = (ClearOf-append b xs ((a, pid) ∷ ys) out).1.0 in
    (λ e. b_a (sym e), Distinct-rest xs ys a pid d)

Chain-Apart :
    (c d : Ptr → Option Task) (p : Ptr) (zs us : Tasks)
    → Apart zs us
    → ((r : Ptr) → ClearOf r zs → d r ≡ c r)
    → Chain c p us
    → Chain d p us
Chain-Apart c d p zs [] h same chain = chain
Chain-Apart c d p zs ((a, pid) ∷ us) (out, h) same (e, ne, t, at, id, rest) =
    (e, ne, t, same a out ∙ at, id, Chain-Apart c d t.next zs us h same rest)

-- Neither of the two lists is the other.
abbrev pub Other : (w v : Which) → Type 0
Other w v = (l : TaskList) (s : State) → list_of v (with_list w l s) ≡ list_of v s

list_of-removed :
    (w v : Which) (xs ys : Tasks) (s : State)
    → Other w v
    → list_of v (removed w xs ys s) ≡ list_of v s
list_of-removed w v [] ys s other = other (record { head = first_of ys; next = first_of ys }) s
list_of-removed w v (x ∷ xs) ys s other = refl

pub cell-removed : (w : Which) (xs ys : Tasks) (s : State) → (removed w xs ys s).cell ≡ s.cell
cell-removed w [] ys s = cell-with_list w (record { head = first_of ys; next = first_of ys }) s
cell-removed w (x ∷ xs) ys s = refl

pub list_of-added :
    (w v : Which) (xs : Tasks) (q : Ptr) (s : State)
    → Other w v
    → list_of v (added w xs q s) ≡ list_of v s
list_of-added w v [] q s other = other (record { head = q; next = q }) s
list_of-added w v (x ∷ xs) q s other = refl

-- The state of a move of task `a` from between `xs` and `ys` on `w` to the end of `zs` on `v`.
abbrev pub moved : (w v : Which) (xs ys zs : Tasks) → Ptr → (d : Ptr → Option Task) → State → State
moved w v xs ys zs a d s = added v zs a (with_cell (removed w xs ys s) d)

-- `xs`, then task `a`, then `ys` are on list `w` and `zs` on list `v`, and no two of them are at one
-- address.
pub record Before (s : State) (w v : Which) (xs ys zs : Tasks) (a pid : ℕ) : Type 0 where
  pub from : Chain s.cell (list_of w s).head (xs ++ (a, pid) ∷ ys)
  pub to : Chain s.cell (list_of v s).head zs
  pub from_distinct : Distinct (xs ++ (a, pid) ∷ ys)
  pub to_distinct : Distinct zs
  pub apart : Apart zs (xs ++ (a, pid) ∷ ys)

pub Chain-at :
    (c : Ptr → Option Task) (p : Ptr) (xs ys : Tasks) (a pid : ℕ)
    → Chain c p (xs ++ (a, pid) ∷ ys)
    → (a ≢ 0) × (t : Task) × (c a ≡ some t) × (t.pid ≡ pid)
Chain-at c p [] ys a pid (e, ne, t, at, id, rest) = (ne, t, at, id)
Chain-at c p ((b, n) ∷ xs) ys a pid (e, ne, t, at, id, rest) = Chain-at c t.next xs ys a pid rest

-- The removal and the insertion never fault, and after them both lists are linked.
pub move-Chain :
    (fuel : ℕ) (s : State) (w v : Which) (xs ys zs : Tasks) (a pid : ℕ)
    → Other w v
    → Other v w
    → Before s w v xs ys zs a pid
    → length xs < fuel
    → length zs ≤ fuel
    → (c d : Ptr → Option Task) × (remove_from_list fuel w a s
        ≡ some (pos 0, removed w xs ys (with_cell s c)))
      × (add_to_list fuel v a (removed w xs ys (with_cell s c))
          ≡ some (tt, moved w v xs ys zs a d (with_cell s c)))
      × Chain d (list_of w (moved w v xs ys zs a d (with_cell s c))).head (xs ++ ys)
      × Chain d (list_of v (moved w v xs ys zs a d (with_cell s c))).head (zs ++ (a, pid) ∷ [])
move-Chain fuel s w v xs ys zs a pid other rehto b lt le =
    let (c, run, from, same) =
      remove_from_list-Chain fuel w s xs ys a pid b.from b.from_distinct lt in
    let (a_zs, apart) = Apart-rest zs xs ys a pid b.apart in
    let a_out = Distinct-rest xs ys a pid b.from_distinct in
    let (a0, t, at, id) = Chain-at s.cell (list_of w s).head xs ys a pid b.from in
    let s1 = removed w xs ys (with_cell s c) in
    let at_a : s1.cell a ≡ some t =
      ap (λ (k : Ptr → Option Task). k a) (cell-removed w xs ys (with_cell s c))
      ∙ same a (ClearOf-append a xs ys a_out).0
      ∙ at in
    let to1 =
      Chain-Apart s.cell c (list_of v s).head xs zs
        (Apart-left xs ys zs (Apart-swap zs (xs ++ ys) apart)) same b.to in
    let head : list_of v s1 ≡ list_of v s =
      list_of-removed w v xs ys (with_cell s c) other ∙ list_of-with_cell v s c in
    let to2 : Chain s1.cell (list_of v s1).head zs =
      rw (head, cell-removed w xs ys (with_cell s c)) to1 in
    let (d, run', to, same') =
      add_to_list-added fuel v s1 zs a t to2 b.to_distinct a_zs a0 at_a le in
    let kept =
      Chain-Apart c d (list_of w s1).head ((a, pid) ∷ zs) (xs ++ ys)
        (Apart-cons a pid zs (xs ++ ys) a_out apart)
        (λ r (ne, out).
          same' r ne out
          ∙ ap (λ (k : Ptr → Option Task). k r) (cell-removed w xs ys (with_cell s c)))
        from in
    let back : list_of w (moved w v xs ys zs a d (with_cell s c)) ≡ list_of w s1 =
      list_of-added v w zs a (with_cell s1 d) rehto ∙ list_of-with_cell w s1 d in
    (c, d, run, run', rw back kept, rw id at to)
