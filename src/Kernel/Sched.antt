-- ===== src/Kernel/Sched.antt =====
-- kernel/src/sched.c: the task table, wait queues, and the calls that create, stop, wake and reap
-- tasks. A queue stands at an address: `i` below 16 for the child queue of slot `i`, others from 16
-- on; 16 tasks fit one word. Pointers to code and text are numbers, and so are C `int`s (patterns).
pub mod Queue
pub mod Loop
pub mod Linked
pub mod Consistent
pub mod Calls
pub mod History
pub mod Pick
pub mod Wake
pub mod Sleep
pub mod Ticks
pub mod Waits
pub mod Tasks
pub mod Switches
pub mod Reaps
pub mod Sleepers
use lamp_vm.Common.Tests.{
  ℕ, zero, suc, ◌+◌, ◌-◌, ◌*◌, ◌/◌, ◌%◌, ◌^◌, Bool, true, false, ◌&&◌, ◌||◌, not, Option, none,
  some, ltb, leb, ◌==◌, if◌then◌else◌,
}
use lamp_vm.Common.Arrays.{update}
use lamp_vm.Common.Word.{add32, is_neg, ◌<<<◌}
use lamp_vm.Common.Bits.Step.{bit_and}
use lamp_vm.Kernel.Files.{Files, FdResult, ebadf, no_ofile, no_fdent, Fdent}
use lamp_vm.Kernel.Files.Slots.{fd_table_init_stdio, first_unused, slot_close_all_fds}
use Queue.{set_bit, clear_bit, test_bit}

abbrev pub max_tasks : ℕ
max_tasks = 16

abbrev pub tick_period_us : ℕ
tick_period_us = 50000

abbrev pub quantum_ticks : ℕ
quantum_ticks = 4

-- The results -1 and -2 of `int` functions.
abbrev pub minus_one : ℕ
minus_one = 0xffffffff

abbrev pub minus_two : ℕ
minus_two = 0xfffffffe

-- SCHED_TASK_*
pub data TaskState : Type 0 where
  unused runnable running sleeping blocked zombie : TaskState

pub record Slot : Type 0 where
  pub tid : ℕ
  pub state : TaskState
  pub wake_tick : ℕ
  pub run_ticks : ℕ
  pub arg : ℕ
  pub used : Bool
  pub is_idle : Bool
  pub quantum_used : ℕ
  pub parent_tid : ℕ
  pub exit_code : ℕ
  pub entry : Option ℕ
  pub name : ℕ
  pub waitq : Option ℕ
  pub files : Files

pub record Sched : Type 0 where
  pub ticks : ℕ
  pub need_resched : Bool
  pub current_idx : ℕ
  pub next_tid : ℕ
  pub tasks : ℕ → Slot
  pub queues : ℕ → ℕ
  pub timer_period_us : ℕ

abbrev pub is_runnable : TaskState → Bool
is_runnable runnable = true
is_runnable _ = false

abbrev pub is_running : TaskState → Bool
is_running running = true
is_running _ = false

abbrev pub is_zombie : TaskState → Bool
is_zombie zombie = true
is_zombie _ = false

abbrev pub waits : TaskState → Bool
waits sleeping = true
waits blocked = true
waits _ = false

-- All bytes 0.
abbrev pub zero_slot : Slot
zero_slot = record {
  tid = 0;
  state = unused;
  wake_tick = 0;
  run_ticks = 0;
  arg = 0;
  used = false;
  is_idle = false;
  quantum_used = 0;
  parent_tid = 0;
  exit_code = 0;
  entry = none;
  name = 0;
  waitq = none;
  files = record {
    ofiles = λ i. no_ofile;
    fdtab = λ i. record { used = false; ofile_idx = 0; fd_flags = 0 };
  };
}

abbrev pub set_slot : ℕ → (Slot → Slot) → Sched → Sched
set_slot i f s = record s { tasks = update s.tasks i (f (s.tasks i)) }

-- The slot with its child queue.
unfoldable pub clear_task : ℕ → Sched → Sched
clear_task i s = record s { tasks = update s.tasks i zero_slot; queues = update s.queues i 0 }

unfoldable pub waitq_init : ℕ → Sched → Sched
waitq_init q s = record s { queues = update s.queues q 0 }

unfoldable pub detach_waitq : ℕ → Sched → Sched
unfolding clear_bit
detach_waitq i s = elim (s.tasks i).waitq [
  | none ↦ s
  | some q ↦ record s {
    tasks = update s.tasks i (record (s.tasks i) { waitq = none });
    queues = if ltb i max_tasks then update s.queues q (clear_bit (s.queues q) i) else s.queues;
  }
]

unfoldable pub alloc_slot : Sched → Option ℕ
unfolding first_unused
alloc_slot s = first_unused (λ i. (s.tasks i).used) (max_tasks - 1) 1

unfoldable pub current_slot : Sched → Option ℕ
current_slot s =
    if leb max_tasks s.current_idx
    then none
    else if not (s.tasks s.current_idx).used
    then none
    else some s.current_idx

-- A waiting task becomes runnable again.
abbrev pub awake : Slot → Slot
awake t = record t { wake_tick = 0; state = runnable; quantum_used = 0 }

abbrev pub awaken : ℕ → Sched → Sched
awaken i s = record (set_slot i awake (detach_waitq i s)) { need_resched = true }

unfoldable current_tid : Sched → ℕ
unfolding current_slot
current_tid s = elim (current_slot s) [ none ↦ minus_one | some i ↦ (s.tasks i).tid ]
