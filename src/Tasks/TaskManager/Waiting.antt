-- ===== src/Tasks/TaskManager/Waiting.antt =====
-- Waiting for a ready process: how far the search has to go, and what is bounded.
use palmyra_os.Prelude.{
  ℕ, suc, ◌+◌, ◌-◌, ◌*◌, ◌<◌, ◌≡◌, ◌≢◌, inl, inr, refl, ◌∙◌, Bool, true, false, ◌&&◌, none, some,
  List, length, get_elem?, arith, ltb, ◌==◌, if◌then◌else◌, Bool-cases,
}
use palmyra_os.Tasks.TaskManager.{
  Process, Registers, TaskManager, State, new, ready, running, terminated, waiting, killed,
  is_ready, is_terminated, cleaned, interrupt_handler,
}
use palmyra_os.Tasks.TaskManager.Pick.{
  modify_same, modify_other, kill_terminated_at, mod_once, at_round,
}
use palmyra_os.Tasks.TaskManager.Fine.{AllFine}

-- How many steps the search from `c` takes to `j`, among `s` processes
abbrev pub distance : ℕ → ℕ → ℕ → ℕ
distance s c j = if ltb c j then j - c else j + s - c

pub distance-at_round :
    (c j : ℕ) (ps : List Process)
    → c < length ps
    → j < length ps
    → c ≢ j
    → at_round (distance (length ps) c j - 1) c ps ≡ j
distance-at_round c j ps cl jl n = elim (Bool-cases (ltb c j)) [
  | inl h ↦ rw h (mod_once (c + 1 + (j - c - 1)) (length ps) (ground arith) ∙ ground arith)
  | inr h ↦
      rw h (mod_once (c + 1 + (j + length ps - c - 1)) (length ps) (ground arith) ∙ ground arith)
]

-- A process met on the way to `j` is nearer to it.
pub distance-lt :
    (c j o : ℕ) (ps : List Process)
    → c < length ps
    → j < length ps
    → c ≢ j
    → o < distance (length ps) c j
    → at_round o c ps ≢ j
    → distance (length ps) (at_round o c ps) j < distance (length ps) c j
distance-lt c j o ps cl jl n l m =
    ground (arith, mod_once (c + 1 + o) (length ps) (ground arith), m, l)

at_rest_ready : (s : State) → is_ready s ≡ true → is_terminated s ≡ false
at_rest_ready ready h = refl
at_rest_ready running h = refl
at_rest_ready new h = refl
at_rest_ready waiting h = refl
at_rest_ready killed h = refl
at_rest_ready terminated h = cc

and_false : (b : Bool) → (b && false) ≡ false
and_false true = refl
and_false false = refl

-- What the handler's first steps leave of the current process and of one that is ready
pub cleaned-current :
    (regs : Registers) (t : TaskManager) {p : Process}
    → get_elem? t.processes t.current_process_index ≡ some p
    → get_elem? (cleaned regs t).processes t.current_process_index
      ≡ some (record p { last_working_eip = regs.eip })
cleaned-current regs t {p} h =
    kill_terminated_at 0 t.current_process_index t.current_process_index _
      (modify_same _ _ t.processes h)
      (rw
        (let e : (0 + t.current_process_index == t.current_process_index) ≡ true = ground arith in
          e)
        refl)

pub cleaned-ready :
    (regs : Registers) (t : TaskManager) (j : ℕ) {q : Process}
    → t.current_process_index ≢ j
    → get_elem? t.processes j ≡ some q
    → is_ready q.state ≡ true
    → get_elem? (cleaned regs t).processes j ≡ some q
cleaned-ready regs t j {q} n h r =
    kill_terminated_at 0 t.current_process_index j _ (modify_other _ j _ t.processes n ∙ h)
      (rw (at_rest_ready q.state r) (and_false _))

-- What is waited for: valid processes outside of atomic sections, of which number `j` is ready,
-- with a bound on the interrupts until it runs.
pub record Waits (j : ℕ) (t : TaskManager) (bound : ℕ) : Type 0 where
  pub all_fine : AllFine t.current_process_index t.processes
  pub in_range : t.current_process_index < length t.processes
  pub j_in_range : j < length t.processes
  pub no_section : t.atomic_section_level ≡ 0
  pub other : t.current_process_index ≢ j
  pub waiting_one : Process
  pub at_j : get_elem? t.processes j ≡ some waiting_one
  pub is_ready_one : is_ready waiting_one.state ≡ true
  pub current_one : Process
  pub at_current : get_elem? t.processes t.current_process_index ≡ some current_one
  pub near : distance (length t.processes) t.current_process_index j * 11 + current_one.age < bound

-- Within `n` interrupts, `interrupts 0` first, process `j` runs, unless the handler panics.
pub data RunsWithin (j : ℕ) : ℕ → (ℕ → ℕ × Registers) → TaskManager → Type 0 where
  panics :
      {n : ℕ} {f : ℕ → ℕ × Registers} {t : TaskManager}
      → interrupt_handler (f 0).0 (f 0).1 t ≡ none
      → RunsWithin j (suc n) f t
  runs :
      {n : ℕ} {f : ℕ → ℕ × Registers} {t : TaskManager} (x : ℕ) (u : TaskManager) (q : Process)
      → interrupt_handler (f 0).0 (f 0).1 t ≡ some (x, u)
      → u.current_process_index ≡ j
      → get_elem? u.processes j ≡ some q
      → q.state ≡ running
      → RunsWithin j (suc n) f t
  later :
      {n : ℕ} {f : ℕ → ℕ × Registers} {t : TaskManager} (x : ℕ) (u : TaskManager)
      → interrupt_handler (f 0).0 (f 0).1 t ≡ some (x, u)
      → RunsWithin j n (λ i. f (suc i)) u
      → RunsWithin j (suc n) f t
