-- ===== src/Task/Context.antt =====
-- src/kernel/task.hpp `TaskContext` and `Task::InitContext` of task.cpp: the registers that a new task
-- starts with.
use mikanos.Prelude.{ℕ, ◌+◌, ◌-◌, ◌%◌, ◌^◌, ◌==◌, if◌then◌else◌, bit_and}
use mikanos.Bits.{complement}

-- `fxsave_area` gives the 32-bit word at each byte offset.
pub record TaskContext : Type 0 where
  pub cr3 : ℕ
  pub rip : ℕ
  pub rflags : ℕ
  pub reserved1 : ℕ
  pub cs : ℕ
  pub ss : ℕ
  pub fs : ℕ
  pub gs : ℕ
  pub rax : ℕ
  pub rbx : ℕ
  pub rcx : ℕ
  pub rdx : ℕ
  pub rdi : ℕ
  pub rsi : ℕ
  pub rsp : ℕ
  pub rbp : ℕ
  pub r8 : ℕ
  pub r9 : ℕ
  pub r10 : ℕ
  pub r11 : ℕ
  pub r12 : ℕ
  pub r13 : ℕ
  pub r14 : ℕ
  pub r15 : ℕ
  pub fxsave_area : ℕ → ℕ

-- `memset(&context_, 0, sizeof(context_))`
unfoldable pub zero_context : TaskContext
zero_context = record {
  cr3 = 0;
  rip = 0;
  rflags = 0;
  reserved1 = 0;
  cs = 0;
  ss = 0;
  fs = 0;
  gs = 0;
  rax = 0;
  rbx = 0;
  rcx = 0;
  rdx = 0;
  rdi = 0;
  rsi = 0;
  rsp = 0;
  rbp = 0;
  r8 = 0;
  r9 = 0;
  r10 = 0;
  r11 = 0;
  r12 = 0;
  r13 = 0;
  r14 = 0;
  r15 = 0;
  fxsave_area = λ _. 0;
}

-- What the machine supplies: CR3, and the end of the stack that was allocated.
pub record Machine : Type 0 where
  pub cr3 : ℕ
  pub stack_end : ℕ

-- src/kernel/segment.hpp
abbrev pub kernel_cs : ℕ
kernel_cs = 8

abbrev pub kernel_ss : ℕ
kernel_ss = 16

-- `f` is the address of the task's function; `word` is its second argument as a 64-bit word.
pub init_context : Machine → (f id word : ℕ) → TaskContext
unfolding zero_context
init_context w f id word = record zero_context {
  cr3 = w.cr3;
  rflags = 0x202;
  cs = kernel_cs;
  ss = kernel_ss;
  rsp = (bit_and w.stack_end (complement 64 0xf) + 2 ^ 64 - 8) % 2 ^ 64;
  rip = f;
  rdi = id;
  rsi = word;
  fxsave_area = λ offset. if offset == 24 then 0x1f80 else 0;
}
