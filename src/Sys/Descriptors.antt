-- ===== src/Sys/Descriptors.antt =====
-- kernel/sys/syscall.c: dup and close on the descriptors of a process.
use melon_os.Common.{
  ℕ, ◌+◌, ◌<◌, ◌≡◌, ◌≢◌, refl, sym, ap, ◌∙◌, Bool, false, ltb, leb, if◌then◌else◌, Option, none,
  some, List, Result, ok, ◌>>=◌, get_or, set, length, take, find_from, IsFirst, find_from-some,
  find_from-none, ltb→lt, Option-cases, Bool-cases, inl, inr, arith, get_or-set_self, get_or-set_ne,
  length-take,
}
use melon_os.Common.Int.{pos}
use melon_os.Fs.Types.{FileState}
use melon_os.Fs.File.{file_at, file_dup, file_close}
use melon_os.Fs.File.Refs.{file_close-dup}
use melon_os.Process.Types.{Kernel, Process, proc_at, zero_process}
use melon_os.Sys.{
  nofile, fds_of, put_fd, getfile, is_free, fs_fdalloc, sys_close, sys_dup, note_dup,
}

-- `find_from` comes to the first place.
find_from-IsFirst :
    {A : Type 0} (test : A → Bool) (xs : List A) (z : A) (d : ℕ)
    → IsFirst test xs z d
    → find_from test xs 0 ≡ some d
find_from-IsFirst test xs z d first = elim (Option-cases (find_from test xs 0)) [
  | inl e ↦ let off = find_from-none test xs z 0 e d first.within in let on = first.passes in cc
  | inr (i, e) ↦
      let (j, eq, other) = find_from-some test xs z 0 i e in
      e ∙ ap (λ x. some x) (eq ∙ same_first j other)
]
  where
    same_first : (j : ℕ) → IsFirst test xs z j → 0 + j ≡ d
    same_first j other = elim (Bool-cases (ltb j d)) [
      | inl lt ↦ let off = first.earlier j (ltb→lt j d lt) in let on = other.passes in cc
      | inr ge ↦ elim (Bool-cases (ltb d j)) [
        | inl gt ↦ let off = other.earlier d (ltb→lt d j gt) in let on = first.passes in cc
        | inr le ↦ ground arith
      ]
    ]

-- The process behind a store of the descriptor `d`.
module _ (k : Kernel) (me : ℕ) where
  put_fd_self :
      (d : ℕ) (f : Option ℕ)
      → me < length k.table
      → fds_of (put_fd k me d f) me ≡ set (fds_of k me) d f
  put_fd_self d f h =
      ap (λ (p : Process). p.file)
        (get_or-set_self k.table me (record (proc_at k me) { file = set (fds_of k me) d f })
          zero_process h)

  getfile-here :
      (fds : List (Option ℕ)) (d : ℕ) (f : Option ℕ)
      → d < nofile
      → fds_of k me ≡ fds
      → getfile k me (pos d) ≡ get_or fds d none
  unfolding getfile
  getfile-here fds d f h e =
      let low : leb nofile d ≡ false = ground arith in rw low (ap (λ xs. get_or xs d none) e)

getfile-put_fd :
    (k : Kernel) (me d e : ℕ) (f : Option ℕ)
    → me < length k.table
    → e ≢ d
    → getfile (put_fd k me d f) me (pos e) ≡ getfile k me (pos e)
unfolding getfile
getfile-put_fd k me d e f h ne =
    ap (λ xs. if leb nofile e then none else get_or xs e none) (put_fd_self k me d f h)
    ∙ ap (λ x. if leb nofile e then none else x)
        (get_or-set_ne (fds_of k me) d e f none (λ q. ne (sym q)))

sys_dup-some :
    (k : Kernel) (me fd f d : ℕ) (s : FileState)
    → getfile k me (pos fd) ≡ some f
    → find_from is_free (take nofile (fds_of k me)) 0 ≡ some d
    → file_dup k.files f ≡ ok s
    → sys_dup k me (pos fd) ≡ ok (some d, record (put_fd k me d (some f)) { files = s })
unfolding sys_dup fs_fdalloc
sys_dup-some k me fd f d s opened found dup =
    let k1 = put_fd k me d (some f) in
    let new : fs_fdalloc k me f ≡ (some d, k1) = rw (found, fs_fdalloc) refl in
    let rest : FileState → Result (Option ℕ × Kernel) =
      λ s1. ok (some d, record k1 { files = s1 }) in
    rw (opened, sys_dup) (ap (note_dup f) new ∙ ap (λ m. m >>= rest) dup)

sys_close-some :
    (k : Kernel) (me d f : ℕ) (s : FileState)
    → getfile k me (pos d) ≡ some f
    → file_close k.files f ≡ ok s
    → sys_close k me (pos d) ≡ ok (some 0, record k { files = s })
unfolding sys_close
sys_close-some k me d f s opened close = rw (opened, sys_close) (rw close refl)

-- On an open descriptor, with a free place left, `sys_dup` gives the first free place, which then
-- leads to the same file, and the other descriptors stay as they are. A `sys_close` of the new
-- descriptor returns 0 and leaves the open files as before the `sys_dup`, but the descriptor still
-- leads to the file.
pub sys_close-sys_dup :
    (k : Kernel) (me fd f d : ℕ)
    → me < length k.table
    → getfile k me (pos fd) ≡ some f
    → f < length k.files.ftable
    → 0 < (file_at k.files f).nref
    → IsFirst is_free (take nofile (fds_of k me)) none d
    → (k1 : Kernel) × (k2 : Kernel) × (sys_dup k me (pos fd) ≡ ok (some d, k1))
      × (getfile k1 me (pos d) ≡ some f)
      × ((e : ℕ) → e ≢ d → getfile k1 me (pos e) ≡ getfile k me (pos e))
      × (sys_close k1 me (pos d) ≡ ok (some 0, k2))
      × (k2.files ≡ k.files)
      × (getfile k2 me (pos d) ≡ some f)
unfolding getfile
sys_close-sys_dup k me fd f d hm opened hf used first =
    let (s, dup_eq, close_eq) = file_close-dup k.files f used hf in
    let k0 = put_fd k me d (some f) in
    let k1 : Kernel = record k0 { files = s } in
    let k2 : Kernel = record k0 { files = k.files } in
    let found = find_from-IsFirst is_free (take nofile (fds_of k me)) none d first in
    let fds = put_fd_self k me d (some f) hm in
    let size = length-take nofile (fds_of k me) in
    let low : d < nofile = omega (arith, first.within, size) in
    let within : d < length (fds_of k me) = omega (arith, first.within, size) in
    let here : get_or (set (fds_of k me) d (some f)) d none ≡ some f =
      get_or-set_self (fds_of k me) d (some f) none within in
    let leads = getfile-here k1 me (set (fds_of k me) d (some f)) d (some f) low fds ∙ here in
    (
      k1,
      k2,
      sys_dup-some k me fd f d s opened found dup_eq,
      leads,
      λ e ne. getfile-put_fd k me d e (some f) hm ne,
      sys_close-some k1 me d f k.files leads close_eq,
      refl,
      getfile-here k2 me (set (fds_of k me) d (some f)) d (some f) low fds ∙ here,
    )
