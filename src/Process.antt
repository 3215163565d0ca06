-- ===== src/Process.antt =====
-- kernel/src/process.rs: a process and its saved registers.
use neur_os.Common.{Text, ℕ}

pub data State : Type 0 where
  running stopped : State

pub record Context : Type 0 where
  pub rax : ℕ
  pub rbx : ℕ
  pub rcx : ℕ
  pub rdx : ℕ
  pub rsi : ℕ
  pub rdi : ℕ
  pub rsp : ℕ
  pub rbp : ℕ
  pub r8 : ℕ
  pub r9 : ℕ
  pub r10 : ℕ
  pub r11 : ℕ
  pub r12 : ℕ
  pub r13 : ℕ
  pub r14 : ℕ
  pub r15 : ℕ
  pub rip : ℕ
  pub rflags : ℕ

-- `Context::default`, derived: every register is 0.
abbrev pub default_context : Context
default_context = record {
  rax = 0;
  rbx = 0;
  rcx = 0;
  rdx = 0;
  rsi = 0;
  rdi = 0;
  rsp = 0;
  rbp = 0;
  r8 = 0;
  r9 = 0;
  r10 = 0;
  r11 = 0;
  r12 = 0;
  r13 = 0;
  r14 = 0;
  r15 = 0;
  rip = 0;
  rflags = 0;
}

pub record Process : Type 0 where
  pub id : ℕ
  pub context : Context
  pub name : Text
  pub state : State

abbrev pub new : ℕ → Text → State → Process
new id name state = record { id = id; context = default_context; name = name; state = state }

abbrev pub get_id : Process → ℕ
get_id p = p.id

abbrev pub get_name : Process → Text
get_name p = p.name

abbrev pub set_id : ℕ → Process → Process
set_id id p = record p { id = id }

abbrev pub set_state : State → Process → Process
set_state state p = record p { state = state }
