-- ===== src/Tasks/TaskManager/Tests.antt =====
-- Three processes, of which the first runs.
use palmyra_os.Prelude.{
  ℕ, zero, suc, ◌+◌, ◌≡◌, ◌⊎◌, inl, refl, subst, Option, none, some, List, [], ◌∷◌, get_elem?,
  arith, some_inj,
}
use palmyra_os.Tasks.TaskManager.{
  Process, Registers, TaskManager, State, ready, running, terminated, kernel, interrupt_handler,
  switch, interrupted, overflows, kill_terminated, released, find_ready,
}
use palmyra_os.Tasks.TaskManager.Fine.{IsFine, AllFine, IsValid}
use palmyra_os.Tasks.TaskManager.Validity.{interrupt_handler-IsValid}
use palmyra_os.Tasks.TaskManager.Waiting.{RunsWithin}
use palmyra_os.Tasks.TaskManager.Fairness.{ready-RunsWithin}

abbrev registers : ℕ → Registers
registers eip = record {
  cr3 = 0;
  gs = 0;
  fs = 0;
  es = 0;
  ds = 0;
  edi = 0;
  esi = 0;
  ebp = 0;
  esp = 0x9000;
  ebx = 0;
  edx = 0;
  ecx = 0;
  eax = 0;
  int_no = 32;
  error_code = 0;
  eip = eip;
  cs = 8;
  eflags = 0;
  user_esp = 0;
  ss = 0;
}

abbrev process : ℕ → State → ℕ → Process
process pid state age = record {
  pid = pid;
  age = age;
  state = state;
  mode = kernel;
  priority = 5;
  stack = registers 0x400;
  exit_code = 0;
  physical_pages = 0x5000 ∷ [];
  user_stack = 0;
  kernel_stack = 0x8000;
  windows = [];
  last_working_eip = 0;
  up_time = 0;
  cpu_time_ticks = 0;
}

abbrev tasks : State → TaskManager
tasks third = record {
  processes = process 0 running 1 ∷ process 1 ready 5 ∷ process 2 third 2 ∷ [];
  current_process_index = 0;
  atomic_section_level = 0;
  pid_count = 3;
  cpu_kernel_stack = 0;
  freed_pages = [];
  closed_windows = [];
}

tasks-AllFine : AllFine 0 (tasks ready).processes
tasks-AllFine zero q h =
    subst (IsFine 0 0) (some_inj h)
      (record { only = λ e. refl; young = omega arith; fair = omega arith })
tasks-AllFine (suc zero) q h =
    subst (IsFine 0 1) (some_inj h)
      (record { only = λ e. cc; young = omega arith; fair = omega arith })
tasks-AllFine (suc (suc zero)) q h =
    subst (IsFine 0 2) (some_inj h)
      (record { only = λ e. cc; young = omega arith; fair = omega arith })
tasks-AllFine (suc (suc (suc j))) q h = cc

tasks-IsValid : IsValid (tasks ready)
tasks-IsValid = record { in_range = inl (omega arith); few = omega arith; all_fine = tasks-AllFine }

IsValid_example :
    (interrupt_handler 0x7000 (registers 0x800) (tasks ready) ≡ none)
    ⊎ ((x : ℕ) × (u : TaskManager) × (interrupt_handler 0x7000 (registers 0x800) (tasks ready)
          ≡ some (x, u))
        × IsValid u)
IsValid_example = interrupt_handler-IsValid 0x7000 (registers 0x800) (tasks ready) tasks-IsValid

fair_example : RunsWithin 2 33 (λ i. (0x7000, registers (0x800 + i))) (tasks ready)
fair_example =
    ready-RunsWithin (tasks ready) 2 (process 0 running 1) (process 2 ready 2)
      (λ i. (0x7000, registers (0x800 + i))) tasks-IsValid refl refl refl refl (omega arith)

-- The second process is next, and the terminated third one is killed.
abbrev index_after : Option (ℕ × TaskManager) → Option ℕ
index_after none = none
index_after (some (x, u)) = some u.current_process_index

abbrev pages_after : Option (ℕ × TaskManager) → List ℕ
pages_after none = []
pages_after (some (x, u)) = u.freed_pages

second_next : index_after (interrupt_handler 0x7000 (registers 0x800) (tasks terminated)) ≡ some 1
unfolding interrupt_handler interrupted overflows kill_terminated released switch find_ready
second_next = refl

third_killed :
    pages_after (interrupt_handler 0x7000 (registers 0x800) (tasks terminated)) ≡ 0x5000 ∷ []
unfolding interrupt_handler interrupted overflows kill_terminated released switch find_ready
third_killed = refl

-- A terminated process goes on to run if no other is ready.
abbrev state_of : Option Process → Option State
state_of none = none
state_of (some q) = some q.state

abbrev alone : TaskManager
alone = record (tasks ready) { processes = process 0 terminated 1 ∷ [] }

abbrev state_after : Option (ℕ × TaskManager) → Option State
state_after none = none
state_after (some (x, u)) = state_of (get_elem? u.processes 0)

revived : state_after (interrupt_handler 0x7000 (registers 0x800) alone) ≡ some running
unfolding interrupt_handler interrupted overflows kill_terminated released switch find_ready
revived = refl
