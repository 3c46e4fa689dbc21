-- ===== src/Tasks/TaskManager.antt =====
-- core/tasks/ProcessManager.cpp, and the parts of core/tasks/Process.cpp that the switching of
-- processes calls. A panic is none. What the paging and the window manager do with the pages and
-- windows of a killed process is outside: the numbers handed to them are kept in lists.
pub mod Pick
pub mod Fine
pub mod Validity
pub mod Waiting
pub mod Fairness
mod Tests
use palmyra_os.Prelude.{
  ℕ, zero, suc, ◌+◌, ◌-◌, ◌*◌, ◌/◌, ◌%◌, ◌^◌, bit_and, Bool, true, false, not, ◌&&◌, ◌||◌, Option,
  none, some, List, [], ◌∷◌, ◌++◌, length, get_elem?, ltb, leb, ◌==◌, if◌then◌else◌,
}

abbrev pub max_processes : ℕ
max_processes = 512

-- CPURegisters
pub record Registers : Type 0 where
  pub cr3 : ℕ
  pub gs : ℕ
  pub fs : ℕ
  pub es : ℕ
  pub ds : ℕ
  pub edi : ℕ
  pub esi : ℕ
  pub ebp : ℕ
  pub esp : ℕ
  pub ebx : ℕ
  pub edx : ℕ
  pub ecx : ℕ
  pub eax : ℕ
  pub int_no : ℕ
  pub error_code : ℕ
  pub eip : ℕ
  pub cs : ℕ
  pub eflags : ℕ
  pub user_esp : ℕ
  pub ss : ℕ

-- The offset of `intNo`
abbrev pub int_no_offset : ℕ
int_no_offset = 52

pub data State : Type 0 where
  new : State
  ready : State
  running : State
  terminated : State
  waiting : State
  killed : State

pub data Mode : Type 0 where
  kernel : Mode
  user : Mode

pub record Process : Type 0 where
  pub pid : ℕ
  pub age : ℕ
  pub state : State
  pub mode : Mode
  pub priority : ℕ
  pub stack : Registers
  pub exit_code : ℕ
  pub physical_pages : List ℕ
  pub user_stack : ℕ
  pub kernel_stack : ℕ
  pub windows : List ℕ
  pub last_working_eip : ℕ
  pub up_time : ℕ
  pub cpu_time_ticks : ℕ

pub record TaskManager : Type 0 where
  pub processes : List Process
  pub current_process_index : ℕ
  pub atomic_section_level : ℕ
  pub pid_count : ℕ
  pub cpu_kernel_stack : ℕ
  pub freed_pages : List ℕ
  pub closed_windows : List ℕ

abbrev pub is_ready : State → Bool
is_ready ready = true
is_ready new = false
is_ready running = false
is_ready terminated = false
is_ready waiting = false
is_ready killed = false

abbrev pub is_terminated : State → Bool
is_terminated terminated = true
is_terminated new = false
is_terminated ready = false
is_terminated running = false
is_terminated waiting = false
is_terminated killed = false

abbrev pub is_killed : State → Bool
is_killed killed = true
is_killed new = false
is_killed ready = false
is_killed running = false
is_killed terminated = false
is_killed waiting = false

abbrev pub is_user : Mode → Bool
is_user user = true
is_user kernel = false

-- A process changed in place; beyond the vector nothing is.
abbrev pub modify : ℕ → (Process → Process) → List Process → List Process
modify i g [] = []
modify zero g (q ∷ qs) = g q ∷ qs
modify (suc i) g (q ∷ qs) = q ∷ modify i g qs

abbrev pub kill : Process → Process
kill q = record q { state = killed; age = 0; physical_pages = []; windows = [] }

abbrev pub is_doomed : ℕ → ℕ → Process → Bool
is_doomed i current q = not (i == current) && is_terminated q.state

-- The processes from number `i` on: the terminated ones are killed, but for the current one.
pub kill_terminated : ℕ → ℕ → List Process → List Process
kill_terminated i current [] = []
kill_terminated i current (q ∷ qs) =
    (if is_doomed i current q then kill q else q) ∷ kill_terminated (i + 1) current qs

-- What the killed processes had, one after the other
pub released : (Process → List ℕ) → ℕ → ℕ → List Process → List ℕ
released part i current [] = []
released part i current (q ∷ qs) =
    (if is_doomed i current q then part q else []) ++ released part (i + 1) current qs

pub overflows : Process → Bool
overflows q =
    ltb q.stack.esp q.kernel_stack
    || (is_user q.mode && not (bit_and q.stack.cs 0x11 == 0) && ltb q.stack.user_esp q.user_stack)

-- What becomes of the process that was interrupted
pub data Turn : Type 0 where
  keeps : Process → Turn
  gives_up : Process → Turn

abbrev pub aged : Process → Turn
aged q =
    if ltb 1 q.age
    then keeps (record q { age = q.age - 1 })
    else gives_up (record q { age = q.priority; state = ready })

abbrev pub turn : Process → Turn
turn q = if is_terminated q.state || is_killed q.state then gives_up q else aged q

abbrev pub saved : Registers → Process → Process
saved regs q = record q { cpu_time_ticks = (q.cpu_time_ticks + 1) % 2 ^ 64; stack = regs }

-- The search for the next ready process, `n` rounds of it left
pub find_ready : ℕ → ℕ → ℕ → ℕ → List Process → ℕ
find_ready zero i last current ps = last
find_ready (suc n) i last current ps =
    let k = (current + 1 + i) % length ps in
    elim (get_elem? ps k) [
      | none ↦ find_ready n (i + 1) k current ps
      | some q ↦ elim (is_ready q.state) [ true ↦ k | false ↦ find_ready n (i + 1) k current ps ]
    ]

abbrev pub started : Process → Process
started q = record q { state = running; up_time = (q.up_time + 1) % 2 ^ 64 }

-- The stack of a user process for the kernel: the last of 10 pages
abbrev pub kernel_stack_of : Option Process → ℕ → ℕ
kernel_stack_of none before = before
kernel_stack_of (some q) before =
    if is_user q.mode then (q.kernel_stack + 4096 * 10 - 1) % 2 ^ 32 else before

abbrev pub saved_esp : Option Process → ℕ
saved_esp none = 0
saved_esp (some q) = (q.stack.esp + 2 ^ 32 - int_no_offset) % 2 ^ 32

-- From the search on: the stack pointer answered, and the state
pub switch : TaskManager → ℕ × TaskManager
switch t =
    let k =
      find_ready (length t.processes) 0 t.current_process_index t.current_process_index
        t.processes in
    let ps = modify k started t.processes in
    (
      saved_esp (get_elem? ps k),
      record t {
        processes = ps;
        current_process_index = k;
        cpu_kernel_stack = kernel_stack_of (get_elem? ps k) t.cpu_kernel_stack;
      },
    )

abbrev pub after_turn : ℕ → TaskManager → Turn → ℕ × TaskManager
after_turn regs_pointer t (keeps q) =
    (regs_pointer, record t { processes = modify t.current_process_index (λ _. q) t.processes })
after_turn regs_pointer t (gives_up q) =
    switch (record t { processes = modify t.current_process_index (λ _. q) t.processes })

-- The process that was interrupted, if one was
interrupted : Option Process → ℕ → Registers → TaskManager → Option (ℕ × TaskManager)
interrupted none regs_pointer regs t = some (switch t)
interrupted (some q) regs_pointer regs t =
    if overflows (saved regs q)
    then none
    else some (after_turn regs_pointer t (turn (saved regs q)))

abbrev pub cleaned : Registers → TaskManager → TaskManager
cleaned regs t =
    let marked =
      modify t.current_process_index (λ q. record q { last_working_eip = regs.eip }) t.processes in
    record t {
      processes = kill_terminated 0 t.current_process_index marked;
      freed_pages =
          t.freed_pages ++ released (λ q. q.physical_pages) 0 t.current_process_index marked;
      closed_windows =
          t.closed_windows ++ released (λ q. q.windows) 0 t.current_process_index marked;
    }

-- `regs` is what the interrupt saved, at `regs_pointer`.
pub interrupt_handler : ℕ → Registers → TaskManager → Option (ℕ × TaskManager)
interrupt_handler regs_pointer regs t =
    if length t.processes == 0 || ltb 0 t.atomic_section_level
    then some (regs_pointer, t)
    else (let u = cleaned regs t in
        interrupted (get_elem? u.processes u.current_process_index) regs_pointer regs u)

-- `built` is what the constructor of a process gets from paging and from its arguments.
abbrev pub constructed : ℕ → Mode → ℕ → Process → Process
constructed pid mode priority built = record built {
  pid = pid;
  age = 2;
  state = ready;
  mode = mode;
  priority = priority;
}

pub new_process : Mode → ℕ → Process → TaskManager → Option ℕ × TaskManager
new_process mode priority built t = if length t.processes == max_processes - 1 then (none, t) else (
  some (length t.processes),
  record t {
    processes = t.processes ++ (constructed t.pid_count mode priority built ∷ []);
    pid_count = (t.pid_count + 1) % 2 ^ 32;
  },
)

pub get_process : ℕ → TaskManager → Option Process
get_process pid t = get_elem? t.processes pid

pub start_atomic_operation : TaskManager → TaskManager
start_atomic_operation t = elim (get_elem? t.processes t.current_process_index) [
  | none ↦ t
  | some q ↦
      if is_user q.mode
      then t
      else record t { atomic_section_level = (t.atomic_section_level + 1) % 2 ^ 32 }
]

pub end_atomic_operation : TaskManager → TaskManager
end_atomic_operation t =
    if ltb 0 t.atomic_section_level
    then record t { atomic_section_level = t.atomic_section_level - 1 }
    else t

-- The calls by which processes end
abbrev pub terminate : ℕ → Process → Process
terminate code q = record q { state = terminated; exit_code = code }
