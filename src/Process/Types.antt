-- ===== src/Process/Types.antt =====
-- kernel/process/pdefs.h: processes. A pointer to a process is its slot in `ptable.t`.
use melon_os.Common.{ℕ, Bool, false, Option, none, List, ◌==◌, get_or, set, replicate}
use melon_os.Memory.Palloc.{KernelMem}
use melon_os.Fs.Types.{FileState}

abbrev pub nproc : ℕ
nproc = 64

abbrev pub nofile : ℕ
nofile = 32

pub data ProcState : Type 0 where
  unused created sleeping ready running zombie : ProcState

-- What a process sleeps on: nothing, a process that waits for its children, or another object of
-- the kernel, by its address.
pub data Chan : Type 0 where
  null : Chan
  proc : ℕ → Chan
  object : ℕ → Chan

-- `p->chan == chan`
abbrev pub chan_eq : Chan → Chan → Bool
chan_eq null null = Bool.true
chan_eq (proc a) (proc b) = a == b
chan_eq (object a) (object b) = a == b
chan_eq _ _ = false

-- A null `pgdir.t`, `kstack`, `trapframe` or `context` is 0. `file` holds places in `ftable`.
pub record Process : Type 0 where
  pub size : ℕ
  pub pgdir : ℕ
  pub kstack : ℕ
  pub pid : ℕ
  pub parent : Option ℕ
  pub state : ProcState
  pub trapframe : ℕ
  pub context : ℕ
  pub chan : Chan
  pub killed : Bool
  pub file : List (Option ℕ)
  pub name : List ℕ

-- A slot of `ptable.t` as the kernel finds it: zeros.
abbrev pub zero_process : Process
zero_process = record {
  size = 0;
  pgdir = 0;
  kstack = 0;
  pid = 0;
  parent = none;
  state = ProcState.unused;
  trapframe = 0;
  context = 0;
  chan = Chan.null;
  killed = false;
  file = replicate nofile none;
  name = replicate 16 0;
}

-- The variables of process.c, the memory and the open files.
pub record Kernel : Type 0 where
  pub memory : KernelMem
  pub files : FileState
  pub table : List Process
  pub nextpid : ℕ
  pub init1 : Option ℕ

abbrev pub proc_at : Kernel → ℕ → Process
proc_at k i = get_or k.table i zero_process

abbrev pub put_proc : Kernel → ℕ → Process → Kernel
put_proc k i p = record k { table = set k.table i p }
