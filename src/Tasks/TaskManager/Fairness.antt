-- ===== src/Tasks/TaskManager/Fairness.antt =====
-- A ready process is run after a bounded number of timer interrupts.
use palmyra_os.Prelude.{
  ℕ, zero, suc, ◌-◌, ◌*◌, ◌≤◌, ◌<◌, ◌≡◌, ◌≢◌, ◌⊎◌, inl, inr, refl, ap, sym, ◌∙◌, true, false, ◌||◌,
  Option, none, some, List, [], ◌∷◌, length, get_elem?, arith, ltb, ◌==◌, Bool-cases, some_inj,
  ==→ne,
}
use palmyra_os.Tasks.TaskManager.{
  Process, Registers, TaskManager, running, is_ready, modify, find_ready, started, switch, cleaned,
}
use palmyra_os.Tasks.TaskManager.Pick.{length-modify, modify_same, modify_other, find_ready-Met}
use palmyra_os.Tasks.TaskManager.Fine.{AllIdle, IsValid}
use palmyra_os.Tasks.TaskManager.Validity.{
  IsSwitched, length-cleaned, with_current, Outcome, panic, same_goes_on, switched,
  switch-IsSwitched, interrupt_handler-Outcome,
}
use palmyra_os.Tasks.TaskManager.Waiting.{
  distance, distance-at_round, distance-lt, cleaned-current, cleaned-ready, Waits, RunsWithin,
  panics, runs, later,
}

-- What one interrupt does to the wait
abbrev Progress : ℕ → ℕ → Option (ℕ × TaskManager) → Type 0
Progress j bound o =
    (o ≡ none)
    ⊎ ((x : ℕ) × (u : TaskManager) × (o ≡ some (x, u))
        × (((u.current_process_index ≡ j)
              × (q : Process) × (get_elem? u.processes j ≡ some q)
              × (q.state ≡ running))
            ⊎ Waits j u bound))

-- A switch from processes at rest of which `j` is ready
switch-Progress :
    (j bound : ℕ) (u : TaskManager) {q : Process}
    → AllIdle u.processes
    → u.current_process_index < length u.processes
    → j < length u.processes
    → u.atomic_section_level ≡ 0
    → u.current_process_index ≢ j
    → get_elem? u.processes j ≡ some q
    → is_ready q.state ≡ true
    → distance (length u.processes) u.current_process_index j * 11 ≤ bound
    → Progress j bound (some (switch u))
unfolding switch
switch-Progress j bound u {q} idle cl jl level n at_j on near =
    let c = u.current_process_index in
    let ps = u.processes in
    let size = length ps in
    let k = find_ready size 0 c c ps in
    let far : distance size c j ≤ size = ground arith in
    let apart : 0 < distance size c j = ground arith in
    let met =
      find_ready-Met size 0 c c (distance size c j - 1) ps (omega arith) (omega (arith, far, apart))
        (ap (get_elem? ps) (distance-at_round c j ps cl jl n) ∙ at_j) on in
    let at_k : get_elem? ps k ≡ some met.3 = ap (get_elem? ps) met.2 ∙ met.4 in
    let s : IsSwitched u (switch u).1 = switch-IsSwitched u (omega (arith, cl)) idle in
    elim (Bool-cases (k == j)) [
      | inl h ↦
          let e : k ≡ j = ground arith in
          inr (
            (switch u).0,
            (switch u).1,
            refl,
            inl (
              e,
              started met.3,
              ap (get_elem? (modify k started ps)) (sym e) ∙ modify_same k started ps at_k,
              refl,
            ),
          )
      | inr h ↦
          let m : k ≢ j = ==→ne k j h in
          let nearer : distance size k j < distance size c j =
            rw met.2 (
              distance-lt c j met.0 ps cl jl n (omega (arith, met.1, apart))
                (λ z. m (met.2 ∙ z))) in
          inr (
            (switch u).0,
            (switch u).1,
            refl,
            inr (record {
              all_fine = s.all_fine;
              in_range = s.in_range;
              j_in_range = omega (arith, s.same_length, jl);
              no_section = level;
              other = m;
              waiting_one = q;
              at_j = modify_other k j started ps m ∙ at_j;
              is_ready_one = on;
              current_one = started met.3;
              at_current = modify_same k started ps at_k;
              near =
                  rw (length-modify k started ps)
                    (omega (arith, nearer, near, (idle k met.3 at_k).young));
            }),
          )
    ]

Outcome-Progress :
    (rp j bound : ℕ) (regs : Registers) (t : TaskManager) (o : Option (ℕ × TaskManager))
    → Waits j t (suc bound)
    → Outcome rp (cleaned regs t) o
    → Progress j bound o
Outcome-Progress rp j bound regs t _ w panic = inl refl
Outcome-Progress rp j bound regs t _ w (same_goes_on q r h older same f) =
    let c = t.current_process_index in
    let l = length-modify c (λ _. r) (cleaned regs t).processes ∙ length-cleaned regs t in
    let aged_one : suc r.age ≡ w.current_one.age =
      older
      ∙ ap (λ (x : Process). x.age) (some_inj (sym h ∙ cleaned-current regs t w.at_current)) in
    inr (
      rp,
      with_current (cleaned regs t) r,
      refl,
      inr (record {
        all_fine = f;
        in_range = omega (arith, l, w.in_range);
        j_in_range = omega (arith, l, w.j_in_range);
        no_section = w.no_section;
        other = w.other;
        waiting_one = w.waiting_one;
        at_j = modify_other c j _ _ w.other ∙ cleaned-ready regs t j w.other w.at_j w.is_ready_one;
        is_ready_one = w.is_ready_one;
        current_one = r;
        at_current = modify_same c _ _ h;
        near = rw l (omega (arith, aged_one, w.near));
      }),
    )
Outcome-Progress rp j bound regs t _ w (switched u l e level other idle) =
    let same_length = l ∙ length-cleaned regs t in
    switch-Progress j bound u idle (omega (arith, e, same_length, w.in_range))
      (omega (arith, same_length, w.j_in_range)) (level ∙ w.no_section) (λ z. w.other (sym e ∙ z))
      (other j w.other ∙ cleaned-ready regs t j w.other w.at_j w.is_ready_one) w.is_ready_one
      (rw same_length (rw e (omega (arith, w.near))))

Waits-RunsWithin :
    (j n : ℕ) (f : ℕ → ℕ × Registers) (t : TaskManager) → Waits j t n → RunsWithin j n f t
Waits-RunsWithin j zero f t w = absurd (omega (arith, w.near))
Waits-RunsWithin j (suc n) f t w =
    elim (Outcome-Progress (f 0).0 j n (f 0).1 t _ w
      (interrupt_handler-Outcome (f 0).0 (f 0).1 t w.all_fine (active w))) [
        | inl e ↦ panics e
        | inr (x, u, e, inl (at, q, there, on)) ↦ runs x u q e at there on
        | inr (x, u, e, inr v) ↦ later x u e (Waits-RunsWithin j n (λ i. f (suc i)) u v)
      ]
  where
    active :
        {b : ℕ} → Waits j t b → (length t.processes == 0 || ltb 0 t.atomic_section_level) ≡ false
    active v = ground (arith, v.in_range, v.no_section)

-- From valid processes outside of an atomic section a process that is ready, and not the current
-- one, runs within 11 timer interrupts for each process that there is, whatever registers they
-- save, unless one panics since a stack overflowed. The current process exists.
pub ready-RunsWithin :
    (t : TaskManager) (j : ℕ) (p q : Process) (f : ℕ → ℕ × Registers)
    → IsValid t
    → t.atomic_section_level ≡ 0
    → get_elem? t.processes t.current_process_index ≡ some p
    → get_elem? t.processes j ≡ some q
    → is_ready q.state ≡ true
    → t.current_process_index ≢ j
    → RunsWithin j (11 * length t.processes) f t
ready-RunsWithin t j p q f v level at_current at_j on n =
    Waits-RunsWithin j (11 * length t.processes) f t (record {
      all_fine = v.all_fine;
      in_range = cl;
      j_in_range = jl;
      no_section = level;
      other = n;
      waiting_one = q;
      at_j = at_j;
      is_ready_one = on;
      current_one = p;
      at_current = at_current;
      near = ground (arith, cl, jl, n, (v.all_fine _ p at_current).young);
    })
  where
    get_elem-lt :
        (i : ℕ) (ps : List Process) {x : Process} → get_elem? ps i ≡ some x → i < length ps
    get_elem-lt i [] h = cc
    get_elem-lt zero (y ∷ ys) h = omega arith
    get_elem-lt (suc i) (y ∷ ys) h = omega (arith, get_elem-lt i ys h)

    cl : t.current_process_index < length t.processes
    cl = get_elem-lt _ t.processes at_current

    jl : j < length t.processes
    jl = get_elem-lt j t.processes at_j
