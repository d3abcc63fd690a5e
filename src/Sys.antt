-- ===== src/Sys.antt =====
-- kernel/sys/syscall.c and the descriptors of kernel/fs.c. The call is made by the process in the slot
-- `me`; its arguments, which `getint` and `getptr` fetch from the stack of the user, are given as
-- such. A result of -1 is `none`.
pub mod Descriptors
mod Tests
use melon_os.Common.{
  ℕ, zero, suc, ◌+◌, ◌-◌, ◌*◌, ◌%◌, ◌^◌, Bool, true, false, not, ◌&&◌, ◌||◌, ltb, leb, ◌==◌,
  if◌then◌else◌, Option, none, some, List, [], ◌∷◌, Result, ok, panic, ◌>>=◌, get_or, set,
  find_from, take,
}
use melon_os.Common.Int.{ℤ, pos, negsuc}
use melon_os.Fs.Types.{FileState}
use melon_os.Fs.File.{file_dup, file_close}
use melon_os.Fs.Pipe.{pipe_allocate}
use melon_os.Process.Types.{Kernel, Process, proc_at, put_proc}
use melon_os.Process.Life.{grow_process}

abbrev pub nofile : ℕ
nofile = 32

-- `getarg`: the address of the argument
unfoldable pub getarg : ℕ → ℕ → ℕ
getarg esp nth = (esp + 4 + 4 * nth) % 2 ^ 32

-- `this_proc()->file`
abbrev pub fds_of : Kernel → ℕ → List (Option ℕ)
fds_of k me = (proc_at k me).file

abbrev pub put_fd : Kernel → ℕ → ℕ → Option ℕ → Kernel
put_fd k me fd f = put_proc k me (record (proc_at k me) { file = set (fds_of k me) fd f })

-- `getfile` for the descriptor that is the argument
unfoldable pub getfile : Kernel → ℕ → ℤ → Option ℕ
getfile k me (negsuc n) = none
getfile k me (pos fd) = if leb nofile fd then none else get_or (fds_of k me) fd none

abbrev pub is_free : Option ℕ → Bool
is_free none = true
is_free (some f) = false

-- `fs_fdalloc` of kernel/fs.c
unfoldable pub fs_fdalloc : Kernel → ℕ → ℕ → Option ℕ × Kernel
fs_fdalloc k me f = elim (find_from is_free (take nofile (fds_of k me)) 0) [
  | none ↦ (none, k)
  | some fd ↦ (some fd, put_fd k me fd (some f))
]

unfoldable pub sys_close : Kernel → ℕ → ℤ → Result (Option ℕ × Kernel)
sys_close k me fd = elim (getfile k me fd) [
  | none ↦ ok (none, k)
  | some f ↦ file_close k.files f >>= λ s. ok (some 0, record k { files = s })
]

-- `sys_dup` behind `fs_fdalloc`
abbrev pub note_dup : ℕ → Option ℕ × Kernel → Result (Option ℕ × Kernel)
note_dup f (none, k) = ok (none, k)
note_dup f (some fd, k) = file_dup k.files f >>= λ s. ok (some fd, record k { files = s })

unfoldable pub sys_dup : Kernel → ℕ → ℤ → Result (Option ℕ × Kernel)
sys_dup k me fd = elim (getfile k me fd) [
  | none ↦ ok (none, k)
  | some f ↦ note_dup f (fs_fdalloc k me f)
]

-- `if (fdr && failed) this_proc()->file[fdr] = 0;`; the place in front of the array is not modelled
abbrev pub clear_fd : Kernel → ℕ → Option ℕ → Kernel
clear_fd k me none = k
clear_fd k me (some fd) = if fd == 0 then k else put_fd k me fd none

-- `if (fd == -1) { failed = true; file_close(f); }`
abbrev pub close_unless : Kernel → Option ℕ → ℕ → Result Kernel
close_unless k (some fd) f = ok k
close_unless k none f = file_close k.files f >>= λ s. ok (record k { files = s })

-- what `sys_pipe` does with the two files: the descriptors that it stores
unfoldable pub pipe_fds : Kernel → ℕ → ℕ → ℕ → Result (Option (ℕ × ℕ) × Kernel)
pipe_fds k me read write =
    let (fdr, k1) = fs_fdalloc k me read in
    let (fdw, k2) = fs_fdalloc k1 me write in
    let failed = is_free fdr || is_free fdw in
    close_unless k2 fdr read >>= λ k3. close_unless k3 fdw write >>= λ k4.
    if failed then ok (none, clear_fd (clear_fd k4 me fdr) me fdw) else elim fdr [
      | none ↦ ok (none, k4)
      | some r ↦ elim fdw [ none ↦ ok (none, k4) | some w ↦ ok (some (r, w), k4) ]
    ]

unfoldable pub sys_pipe : Kernel → ℕ → Result (Option (ℕ × ℕ) × Kernel)
sys_pipe k me = pipe_allocate k.files k.memory >>= λ (made, s, m).
    let k1 : Kernel = record k { files = s; memory = m } in
    elim made [ none ↦ ok (none, k1) | some ends ↦ pipe_fds k1 me ends.0 ends.1 ]

unfoldable pub sys_getpid : Kernel → ℕ → ℕ
sys_getpid k me = (proc_at k me).pid

-- `sys_sbrk`; when `grow_process` fails it has no `return`, and gives no value
unfoldable pub sys_sbrk : ℕ → Kernel → ℕ → ℤ → Result (Option ℕ × Kernel)
sys_sbrk kernel_end k me brk =
    let addr = (proc_at k me).size in
    grow_process kernel_end k me brk >>= λ (grown, k1).
    if grown then ok (some addr, k1) else ok (none, k1)

-- `is_valid_syscall`: `system_calls` has an entry for each number from 1 to 16
unfoldable pub is_valid_syscall : ℕ → Bool
is_valid_syscall n = ltb 0 n && ltb n 17
