-- ===== src/Sys/Tests.antt =====
-- Runs of kernel/sys/syscall.c on small inputs.
use melon_os.Common.{
  ℕ, ◌≡◌, ◌≢◌, refl, none, some, [], ◌∷◌, replicate, ok, IsFirst, take, zero, suc, arith,
}
use melon_os.Common.Int.{pos}
use melon_os.Fs.Types.{FdType}
use melon_os.Fs.File.{zero_file}
use melon_os.Process.Types.{Kernel, zero_process}
use melon_os.Sys.{nofile, fds_of, getfile, is_free, sys_close, sys_dup}
use melon_os.Sys.Descriptors.{sys_close-sys_dup}

-- Process 0 has file 0 open as its first descriptor.
abbrev one_open : Kernel
one_open = record {
  memory = record { mem = λ a. 0; freelist = 0 };
  files = record { ftable = record zero_file { nref = 1; type = FdType.inode } ∷ []; icache = [] };
  table = record zero_process { file = some 0 ∷ replicate 31 none } ∷ [];
  nextpid = 2;
  init1 = some 0;
}

second_free : IsFirst is_free (take nofile (fds_of one_open 0)) none 1
second_free = record {
  within = omega arith;
  passes = refl;
  earlier = elim [ zero ↦ λ h. refl | suc j ↦ λ h. absurd (omega arith) ];
}

one_open_first : getfile one_open 0 (pos 0) ≡ some 0
unfolding getfile
one_open_first = refl

sys_close-sys_dup_example :
    (k1 : Kernel) × (k2 : Kernel) × (sys_dup one_open 0 (pos 0) ≡ ok (some 1, k1))
    × (getfile k1 0 (pos 1) ≡ some 0)
    × ((e : ℕ) → e ≢ 1 → getfile k1 0 (pos e) ≡ getfile one_open 0 (pos e))
    × (sys_close k1 0 (pos 1) ≡ ok (some 0, k2))
    × (k2.files ≡ one_open.files)
    × (getfile k2 0 (pos 1) ≡ some 0)
sys_close-sys_dup_example =
    sys_close-sys_dup one_open 0 0 0 1 (omega arith) one_open_first (omega arith) (omega arith)
      second_free
