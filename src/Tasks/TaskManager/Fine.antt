-- ===== src/Tasks/TaskManager/Fine.antt =====
-- What holds of each process while one runs and when none does, and what keeps it.
use palmyra_os.Prelude.{
  ℕ, suc, ◌-◌, ◌≤◌, ◌<◌, ◌≡◌, ◌≢◌, ◌⊎◌, inl, inr, refl, ap, sym, subst, ◌∙◌, true, false, ◌||◌,
  none, some, List, length, get_elem?, arith, ltb, Bool-cases,
}
use palmyra_os.Tasks.TaskManager.{
  Process, TaskManager, State, ready, running, is_terminated, is_killed, max_processes, modify,
  kill_terminated, started, keeps, gives_up, turn,
}
use palmyra_os.Tasks.TaskManager.Pick.{modify_from, kill_terminated_from}

-- A process in place `j` while `current` is the one that runs
pub record IsFine (current j : ℕ) (q : Process) : Type 0 where
  pub only : q.state ≡ running → j ≡ current
  pub young : q.age ≤ 10
  pub fair : q.priority ≤ 10

abbrev pub AllFine : ℕ → List Process → Type 0
AllFine c ps = (j : ℕ) (q : Process) → get_elem? ps j ≡ some q → IsFine c j q

-- No process runs.
pub record IsIdle (q : Process) : Type 0 where
  pub at_rest : q.state ≢ running
  pub young : q.age ≤ 10
  pub fair : q.priority ≤ 10

abbrev pub AllIdle : List Process → Type 0
AllIdle ps = (j : ℕ) (q : Process) → get_elem? ps j ≡ some q → IsIdle q

-- At most the current process runs, of those that there are, and no priority is above the
-- highest, 10. Before the first switch the index is `max_processes`.
pub record IsValid (t : TaskManager) : Type 0 where
  pub in_range :
      (t.current_process_index < length t.processes) ⊎ (t.current_process_index ≡ max_processes)
  pub few : length t.processes < max_processes
  pub all_fine : AllFine t.current_process_index t.processes

running-ready : ¬ (ready ≡ running)
running-ready h = cc

module _ (c : ℕ) (ps : List Process) (a : AllFine c ps) where
  pub AllFine-modify :
      (i : ℕ) (g : Process → Process)
      → ((q : Process) → get_elem? ps i ≡ some q → IsFine c i (g q))
      → AllFine c (modify i g ps)
  AllFine-modify i g keep j r h =
      let w = modify_from i j g ps h in
      elim w.2 [
        | inl (e, same) ↦
            rw same (subst (λ x. IsFine c x (g w.0)) e (keep w.0 (ap (get_elem? ps) e ∙ w.1)))
        | inr (n, same) ↦ rw same (a j w.0 w.1)
      ]

  pub AllFine-kill_terminated : AllFine c (kill_terminated 0 c ps)
  AllFine-kill_terminated j r h =
      let w = kill_terminated_from 0 c j ps h in
      elim w.2 [
        | inl e ↦ rw e (record { only = λ z. cc; young = omega arith; fair = (a j w.0 w.1).fair })
        | inr e ↦ rw e (a j w.0 w.1)
      ]

  -- When the process that ran has stopped, none runs.
  pub AllIdle-modify : (q : Process) → IsIdle q → AllIdle (modify c (λ _. q) ps)
  AllIdle-modify q i j r h =
      let w = modify_from c j (λ _. q) ps h in
      elim w.2 [
        | inl (e, same) ↦ rw same i
        | inr (n, same) ↦
            let fine = a j w.0 w.1 in
            rw same (record {
              at_rest = λ z. n (sym (fine.only z));
              young = fine.young;
              fair = fine.fair;
            })
      ]

  pub AllIdle-nobody : get_elem? ps c ≡ none → AllIdle ps
  AllIdle-nobody nobody j q h =
      let fine = a j q h in
      record {
        at_rest = λ z. none_some (sym nobody ∙ ap (get_elem? ps) (sym (fine.only z)) ∙ h);
        young = fine.young;
        fair = fine.fair;
      }
    where
      none_some : {x : Process} → ¬ (none ≡ some x)
      none_some z = cc

pub AllFine-modify-started :
    (k : ℕ) (ps : List Process) → AllIdle ps → AllFine k (modify k started ps)
AllFine-modify-started k ps a j r h =
    let w = modify_from k j started ps h in
    let rest = a j w.0 w.1 in
    elim w.2 [
      | inl (e, same) ↦ rw same (record { only = λ z. sym e; young = rest.young; fair = rest.fair })
      | inr (n, same) ↦
          rw same
            (record { only = λ z. absurd (rest.at_rest z); young = rest.young; fair = rest.fair })
    ]

-- What becomes of a process that was interrupted
pub turn-IsFine :
    {c : ℕ} (q : Process)
    → IsFine c c q
    → ((r : Process) × (turn q ≡ keeps r)
        × IsFine c c r
        × (suc r.age ≡ q.age)
        × (r.state ≡ q.state))
      ⊎ ((r : Process) × (turn q ≡ gives_up r) × IsIdle r)
turn-IsFine q f = elim (Bool-cases (is_terminated q.state || is_killed q.state)) [
  | inl over ↦ inr (
    q,
    rw over refl,
    record { at_rest = over-at_rest q.state over; young = f.young; fair = f.fair },
  )
  | inr on ↦ elim (Bool-cases (ltb 1 q.age)) [
    | inl old ↦ inl (
      record q { age = q.age - 1 },
      rw on (rw old refl),
      record { only = f.only; young = omega (arith, f.young); fair = f.fair },
      ground arith,
      refl,
    )
    | inr done_now ↦ inr (
      record q { age = q.priority; state = ready },
      rw on (rw done_now refl),
      record { at_rest = running-ready; young = f.fair; fair = f.fair },
    )
  ]
]
  where
    over-at_rest : (s : State) → (is_terminated s || is_killed s) ≡ true → s ≢ running
    over-at_rest s h e =
        let z : false ≡ true = ap (λ x. is_terminated x || is_killed x) (sym e) ∙ h in cc
