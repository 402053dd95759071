-- ===== src/Proc/Sched/Fair.antt =====
-- Fairness of `schedule`: in as many calls as there are ready tasks, each of them runs once.
use yanix.Common.{
  ℕ, zero, suc, ◌+◌, ◌^◌, ◌<◌, ◌≡◌, ◌≢◌, refl, sym, ap, ◌∙◌, inl, inr, false, some, List, [], ◌∷◌,
  ◌++◌, arith, ◌==◌, length, ne→==, eq→==, Option-cases, length-append,
}
use mathlib.Core.List.{append-nil}
use yanix.Proc.Sched.{Ptr, Task, TaskList, State, Cmd, pure, ◌>>=◌, ◌>>◌, schedule}
use yanix.Proc.Sched.Chains.{Tasks, Chain}
use yanix.Proc.Sched.Turns.{
  first_of, addresses, turn, Turned, Chain-first, Chain-drop, Chain-same, schedule-Turned,
}

-- `n` calls of `schedule`, and the task that runs after each.
unfoldable pub turns : ℕ → Cmd (List Ptr)
turns zero = pure []
turns (suc n) = do schedule; p ← (λ s. some (s.running, s)); ps ← turns n; pure (p ∷ ps)

-- What calls of `schedule` leave as it is.
pub record Kept (s s' : State) : Type 0 where
  pub head : s'.ready.head ≡ s.ready.head
  pub locks : s'.locks ≡ s.locks
  pub sleep : s'.sleep ≡ s.sleep
  pub blocked : s'.blocked ≡ s.blocked
  pub cells :
      (q : Ptr) (t : Task)
      → s.cell q ≡ some t
      → (u : Task) × (s'.cell q ≡ some u) × (u.pid ≡ t.pid) × (u.next ≡ t.next)

Kept-refl : (s : State) → Kept s s
Kept-refl s = record {
  head = refl;
  locks = refl;
  sleep = refl;
  blocked = refl;
  cells = λ q t h. (t, h, refl, refl);
}

Kept-trans : {a b c : State} → Kept a b → Kept b c → Kept a c
Kept-trans h g = record {
  head = g.head ∙ h.head;
  locks = g.locks ∙ h.locks;
  sleep = g.sleep ∙ h.sleep;
  blocked = g.blocked ∙ h.blocked;
  cells = λ q t e.
      let (u, at, id, next) = h.cells q t e in
      let (v, at', id', next') = g.cells q u at in (v, at', id' ∙ id, next' ∙ next);
}

Turned-Kept : {s s' : State} {a next : Ptr} → Turned s a next s' → Kept s s'
Turned-Kept t = record {
  head = ap (λ (l : TaskList). l.head) t.ready;
  locks = t.locks;
  sleep = t.sleep;
  blocked = t.blocked;
  cells = t.cells;
}

turns-add :
    (m n : ℕ) (s s1 s2 : State) (ps qs : List Ptr)
    → turns m s ≡ some (ps, s1)
    → turns n s1 ≡ some (qs, s2)
    → turns (m + n) s ≡ some (ps ++ qs, s2)
unfolding turns
turns-add zero n s s1 s2 ps qs h g = let e : 0 + n ≡ n = omega arith in ground (arith, e, h, g)
turns-add (suc m) n s s1 s2 ps qs h g =
    let e : suc m + n ≡ suc (m + n) = omega arith in
    elim (Option-cases (schedule s)) [
      | inl stuck ↦ absurd (let bad = rw stuck at h in cc)
      | inr ((_, s0), run) ↦ elim (Option-cases (turns m s0)) [
        | inl stuck ↦ absurd (let bad = rw (run, stuck) at h in cc)
        | inr ((rs, s3), run') ↦
            (let whole : some (s0.running ∷ rs, s3) ≡ some (ps, s1) = rw (run, run') at h in
              let e1 : s3 ≡ s1 = ground (arith, whole) in
              let e2 : s0.running ∷ rs ≡ ps = ground (arith, whole) in
              let rest = turns-add m n s0 s1 s2 rs qs (run' ∙ ap (λ z. some (rs, z)) e1) g in
              rw (e, run, rest, ← e2) refl)
      ]
    ]

turns-segment :
    (mid : Tasks) (a pid : ℕ) (post : Tasks) (s : State)
    → Chain s.cell (turn s) ((a, pid) ∷ mid ++ post)
    → s.locks + 1 < 2 ^ 32
    → (s' : State) × (turns (suc (length mid)) s ≡ some (a ∷ addresses mid, s'))
      × (s'.ready.next ≡ first_of post)
      × Kept s s'
unfolding turns
turns-segment [] a pid post s (e, ne, t, at, id, rest) small =
    let (s1, run, turned) = schedule-Turned s a t e ne at small in
    (
      s1,
      rw (run, turned.running) refl,
      ap (λ (l : TaskList). l.next) turned.ready ∙ Chain-first s.cell t.next post rest,
      Turned-Kept turned,
    )
turns-segment ((b, n) ∷ mid) a pid post s (e, ne, t, at, id, rest) small =
    let (s1, run, turned) = schedule-Turned s a t e ne at small in
    let next : s1.ready.next ≡ t.next = ap (λ (l : TaskList). l.next) turned.ready in
    let some_next : (s1.ready.next == 0) ≡ false =
      ne→== s1.ready.next 0 (λ r. rest.1 (sym rest.0 ∙ sym next ∙ r)) in
    let at_next : turn s1 ≡ t.next = (rw some_next next) in
    let chain = Chain-same s.cell s1.cell t.next ((b, n) ∷ mid ++ post) turned.cells rest in
    let (s', run', cursor, kept) =
      turns-segment mid b n post s1 (rw (← at_next) at chain) (rw (← turned.locks) at small) in
    (s', rw (run, turned.running, run') refl, cursor, Kept-trans (Turned-Kept turned) kept)

length-addresses : (xs : Tasks) → length (addresses xs) ≡ length xs
length-addresses [] = refl
length-addresses (x ∷ xs) = ap suc (length-addresses xs)

addresses-append : (xs ys : Tasks) → addresses (xs ++ ys) ≡ addresses xs ++ addresses ys
addresses-append [] ys = refl
addresses-append ((a, pid) ∷ xs) ys = ap (λ zs. a ∷ zs) (addresses-append xs ys)

turns_zero : (s : State) → turns 0 s ≡ some ([], s)
unfolding turns
turns_zero s = refl

turns-tasks :
    (xs ys : Tasks) (s s1 s2 : State)
    → turns (length xs) s ≡ some (addresses xs, s1)
    → turns (length ys) s1 ≡ some (addresses ys, s2)
    → turns (length (xs ++ ys)) s ≡ some (addresses (xs ++ ys), s2)
turns-tasks xs ys s s1 s2 run run' =
    rw (length-append xs ys, addresses-append xs ys)
      (turns-add (length xs) (length ys) s s1 s2 (addresses xs) (addresses ys) run run')

turn_end : (s : State) → s.ready.next ≡ 0 → turn s ≡ s.ready.head
turn_end s e = rw (eq→== s.ready.next 0 e) refl

turn_at : (s : State) (a : Ptr) → a ≢ 0 → s.ready.next ≡ a → turn s ≡ a
turn_at s a ne e = rw (ne→== s.ready.next 0 (λ r. ne (sym e ∙ r))) e

-- The ready list is `before ++ after`, and the turn is at the first task of `after`, or at the head
-- where that is empty.
abbrev pub AtCursor : State → (before after : Tasks) → Type 0
AtCursor s before after =
    Chain s.cell s.ready.head (before ++ after) × (turn s ≡ first_of (after ++ before))

Kept-Chain :
    (s s' : State) (xs : Tasks)
    → Kept s s'
    → Chain s.cell s.ready.head xs
    → Chain s'.cell s'.ready.head xs
Kept-Chain s s' xs kept h =
    let h' = Chain-same s.cell s'.cell s.ready.head xs kept.cells h in (rw (← kept.head) at h')

-- A round of a whole list, from its head.
turns-round :
    (a pid : ℕ) (xs : Tasks) (s : State)
    → Chain s.cell (turn s) ((a, pid) ∷ xs)
    → s.ready.head ≡ a
    → s.locks + 1 < 2 ^ 32
    → (s' : State) × (turns (suc (length xs)) s ≡ some (a ∷ addresses xs, s'))
      × (turn s' ≡ a)
      × Kept s s'
turns-round a pid xs s h head small =
    let (s', run, cursor, kept) = turns-segment xs a pid [] s (rw (← append-nil xs) at h) small in
    (s', run, turn_end s' cursor ∙ kept.head ∙ head, kept)

-- As many calls of `schedule` as there are ready tasks never fault: each ready task runs in exactly
-- one of them, in the order of the list from the turn on and around its end, and after them the
-- list, the turn and the lock count are as before.
pub turns-fair :
    (before after : Tasks) (s : State)
    → AtCursor s before after
    → s.locks + 1 < 2 ^ 32
    → (s' : State) × (turns (length (after ++ before)) s ≡ some (addresses (after ++ before), s'))
      × AtCursor s' before after
      × Kept s s'
turns-fair [] [] s h small = (s, turns_zero s, h, Kept-refl s)
turns-fair ((b, n) ∷ before) [] s (chain, cursor) small =
    let all = rw (append-nil) at chain in
    let (s', run, cursor', kept) =
      turns-round b n before s (cursor, all.1, all.2, all.3, all.4, all.5) all.0 small in
    (s', run, (Kept-Chain s s' ((b, n) ∷ before ++ []) kept chain, cursor'), kept)
turns-fair [] ((a, m) ∷ after) s (chain, cursor) small =
    let (s', run, cursor', kept) =
      turns-round a m after s (cursor, chain.1, chain.2, chain.3, chain.4, chain.5) chain.0 small in
    (s', rw (append-nil after) run, (Kept-Chain s s' ((a, m) ∷ after) kept chain, cursor'), kept)
turns-fair ((b, n) ∷ before) ((a, m) ∷ after) s (chain, cursor) small =
    let tail = Chain-drop s.cell s.ready.head ((b, n) ∷ before) ((a, m) ∷ after) chain in
    let tail' : Chain s.cell (turn s) ((a, m) ∷ after) =
      (cursor, tail.1, tail.2, tail.3, tail.4, tail.5) in
    let (s1, run, end, kept) =
      turns-segment after a m [] s (rw (← append-nil after) at tail') small in
    let chain1 = Kept-Chain s s1 ((b, n) ∷ before ++ (a, m) ∷ after) kept chain in
    let chain' : Chain s1.cell (turn s1) ((b, n) ∷ before ++ (a, m) ∷ after) =
      (turn_end s1 end ∙ chain1.0, chain1.1, chain1.2, chain1.3, chain1.4, chain1.5) in
    let (s2, run', cursor', kept') =
      turns-segment before b n ((a, m) ∷ after) s1 chain' (rw (← kept.locks) at small) in
    (
      s2,
      turns-tasks ((a, m) ∷ after) ((b, n) ∷ before) s s1 s2 run run',
      (
        Kept-Chain s1 s2 ((b, n) ∷ before ++ (a, m) ∷ after) kept' chain1,
        turn_at s2 a tail.1 cursor',
      ),
      Kept-trans kept kept',
    )
