-- ===== src/Tasks/TaskManager/Validity.antt =====
-- What holds of the processes between interrupts, and that every interrupt keeps it.
use palmyra_os.Prelude.{
  ℕ, suc, ◌<◌, ◌≡◌, ◌≢◌, ◌⊎◌, inl, inr, refl, ◌∙◌, false, ◌||◌, Option, none, some, length,
  get_elem?, arith, ltb, ◌==◌, Bool-cases,
}
use palmyra_os.Tasks.TaskManager.{
  Process, Registers, TaskManager, modify, find_ready, started, saved, switch, overflows,
  interrupted, cleaned, interrupt_handler,
}
use palmyra_os.Tasks.TaskManager.Pick.{
  length-modify, modify_other, length-kill_terminated, find_ready-lt,
}
use palmyra_os.Tasks.TaskManager.Fine.{
  AllFine, AllIdle, IsValid, AllFine-modify, AllFine-kill_terminated, AllIdle-modify,
  AllIdle-nobody, AllFine-modify-started, turn-IsFine,
}

pub length-cleaned :
    (regs : Registers) (t : TaskManager) → length (cleaned regs t).processes ≡ length t.processes
length-cleaned regs t =
    length-kill_terminated 0 t.current_process_index _
    ∙ length-modify t.current_process_index _ t.processes

pub AllFine-cleaned :
    (regs : Registers) (t : TaskManager)
    → AllFine t.current_process_index t.processes
    → AllFine t.current_process_index (cleaned regs t).processes
AllFine-cleaned regs t a = AllFine-kill_terminated t.current_process_index _ (
    AllFine-modify t.current_process_index t.processes a t.current_process_index
      (λ q. record q { last_working_eip = regs.eip })
      (λ q h.
        let fine = a _ q h in record { only = fine.only; young = fine.young; fair = fine.fair }))

-- What a switch from processes at rest leaves
pub record IsSwitched (t u : TaskManager) : Type 0 where
  pub same_length : length u.processes ≡ length t.processes
  pub in_range : u.current_process_index < length u.processes
  pub all_fine : AllFine u.current_process_index u.processes

pub switch-IsSwitched :
    (t : TaskManager) → 0 < length t.processes → AllIdle t.processes → IsSwitched t (switch t).1
unfolding switch
switch-IsSwitched t some_there a =
    let k =
      find_ready (length t.processes) 0 t.current_process_index t.current_process_index
        t.processes in
    record {
      same_length = length-modify k started t.processes;
      in_range = omega (
        arith,
        length-modify k started t.processes,
        find_ready-lt (length t.processes) 0 t.current_process_index t.current_process_index
            t.processes some_there (inr some_there),
      );
      all_fine = AllFine-modify-started k t.processes a;
    }

-- The state after the process that ran was replaced in place
abbrev pub with_current : TaskManager → Process → TaskManager
with_current t q = record t { processes = modify t.current_process_index (λ _. q) t.processes }

-- The three ways in which the handler goes on: a panic, the same process for longer, or a switch
-- when no process runs, from `u`.
pub data Outcome (regs_pointer : ℕ) (t : TaskManager) : Option (ℕ × TaskManager) → Type 0 where
  panic : Outcome regs_pointer t none
  same_goes_on :
      (q r : Process)
      → get_elem? t.processes t.current_process_index ≡ some q
      → suc r.age ≡ q.age
      → r.state ≡ q.state
      → AllFine t.current_process_index (with_current t r).processes
      → Outcome regs_pointer t (some (regs_pointer, with_current t r))
  switched :
      (u : TaskManager)
      → length u.processes ≡ length t.processes
      → u.current_process_index ≡ t.current_process_index
      → u.atomic_section_level ≡ t.atomic_section_level
      → ((j : ℕ) → t.current_process_index ≢ j → get_elem? u.processes j ≡ get_elem? t.processes j)
      → AllIdle u.processes
      → Outcome regs_pointer t (some (switch u))

interrupted-Outcome :
    (regs_pointer : ℕ) (regs : Registers) (t : TaskManager)
    → AllFine t.current_process_index t.processes
    → (o : Option Process) → get_elem? t.processes t.current_process_index ≡ o
    → Outcome regs_pointer t (interrupted o regs_pointer regs t)
unfolding interrupted
interrupted-Outcome rp regs t a none h =
    switched t refl refl refl (λ j n. refl) (AllIdle-nobody t.current_process_index t.processes a h)
interrupted-Outcome rp regs t a (some q) h = elim (Bool-cases (overflows (saved regs q))) [
  | inl o ↦ rw o panic
  | inr o ↦
      let fine = a t.current_process_index q h in
      rw o
        (elim (turn-IsFine {c = t.current_process_index} (saved regs q)
          (record { only = fine.only; young = fine.young; fair = fine.fair })) [
            | inl (r, e, f, older, same) ↦ rw e (
                same_goes_on q r h older same (
                  AllFine-modify t.current_process_index t.processes a t.current_process_index
                    (λ _. r) (λ x z. f)))
            | inr (r, e, f) ↦ rw e (
                switched (with_current t r) (length-modify _ _ t.processes) refl refl
                  (λ j n. modify_other _ j _ t.processes n)
                  (AllIdle-modify t.current_process_index t.processes a r f))
          ])
]

pub interrupt_handler-Outcome :
    (regs_pointer : ℕ) (regs : Registers) (t : TaskManager)
    → AllFine t.current_process_index t.processes
    → (length t.processes == 0 || ltb 0 t.atomic_section_level) ≡ false
    → Outcome regs_pointer (cleaned regs t) (interrupt_handler regs_pointer regs t)
unfolding interrupt_handler
interrupt_handler-Outcome rp regs t a on =
    rw on (interrupted-Outcome rp regs (cleaned regs t) (AllFine-cleaned regs t a) _ refl)

-- Every timer interrupt keeps the processes valid, unless it panics since a stack overflowed: at
-- most the current process runs, the index of the current process is in range (or not yet set),
-- and no age is above the highest priority.
pub interrupt_handler-IsValid :
    (regs_pointer : ℕ) (regs : Registers) (t : TaskManager)
    → IsValid t
    → (interrupt_handler regs_pointer regs t ≡ none)
      ⊎ ((x : ℕ) × (u : TaskManager) × (interrupt_handler regs_pointer regs t ≡ some (x, u))
          × IsValid u)
unfolding interrupt_handler
interrupt_handler-IsValid rp regs t v =
    elim (Bool-cases (length t.processes == 0 || ltb 0 t.atomic_section_level)) [
      | inl off ↦ inr (rp, t, rw off refl, v)
      | inr on ↦ valid_after on _ (interrupt_handler-Outcome rp regs t v.all_fine on)
    ]
  where
    valid_after :
        (length t.processes == 0 || ltb 0 t.atomic_section_level) ≡ false
        → (o : Option (ℕ × TaskManager)) → Outcome rp (cleaned regs t) o
        → (o ≡ none) ⊎ ((x : ℕ) × (u : TaskManager) × (o ≡ some (x, u)) × IsValid u)
    valid_after on _ panic = inl refl
    valid_after on _ (same_goes_on q r h older same f) =
        let l =
          length-modify t.current_process_index (λ _. r) (cleaned regs t).processes
          ∙ length-cleaned regs t in
        inr (
          rp,
          with_current (cleaned regs t) r,
          refl,
          record {
            in_range = elim v.in_range [ inl a ↦ inl (omega (arith, l, a)) | inr a ↦ inr a ];
            few = omega (arith, l, v.few);
            all_fine = f;
          },
        )
    valid_after on _ (switched u l e level other idle) =
        let s : IsSwitched u (switch u).1 =
          switch-IsSwitched u (ground (arith, on, l, length-cleaned regs t)) idle in
        inr (
          (switch u).0,
          (switch u).1,
          refl,
          record {
            in_range = inl s.in_range;
            few = omega (arith, s.same_length, l, length-cleaned regs t, v.few);
            all_fine = s.all_fine;
          },
        )
