-- ===== src/Process/Life/Reap.antt =====
-- kernel/process.c: what `wait` leaves of a child, in `deallocate_process_unlocked`.
use melon_os.Common.{
  get_or-set_self, get_or-set_ne, ◌≢◌, ℕ, ◌<◌, ◌≡◌, refl, ◌∙◌, sym, ap, ◌⊎◌, inl, inr, false, ◌==◌,
  if◌then◌else◌, none, ok, panic, Result, ◌>>=◌, set, length, Bool-cases, arith,
}
use melon_os.Memory.Palloc.{KernelMem, pfree}
use melon_os.Memory.Vmem.{vmfree}
use melon_os.Process.Types.{zero_process, unused, Process, Kernel, proc_at, put_proc}
use melon_os.Process.Table.{deallocate_process_unlocked, cleared, free_pgdir, free_kstack}
use melon_os.Process.Life.Missed.{at}

pub bind-ok {ℓ κ} :
    {A : Type ℓ} {B : Type κ} (r : Result A) (f : A → Result B) (y : B)
    → (r >>= f) ≡ ok y
    → (x : A) × (r ≡ ok x) × (f x ≡ ok y)
bind-ok (ok x) f y h = (x, refl, h)
bind-ok panic f y h = cc

pub ok-inj {ℓ} : {A : Type ℓ} {x y : A} → Result.ok x ≡ Result.ok y → x ≡ y
ok-inj h = cc

Result-cases {ℓ} : {A : Type ℓ} (r : Result A) → (r ≡ panic) ⊎ ((x : A) × (r ≡ ok x))
Result-cases (ok x) = inr (x, refl)
Result-cases panic = inl refl

module _ (kernel_end : ℕ) where
  free_pgdir-table :
      (k : Kernel) (pgdir : ℕ) (k1 : Kernel)
      → free_pgdir kernel_end k pgdir ≡ ok k1
      → k1.table ≡ k.table
  unfolding free_pgdir
  free_pgdir-table k pgdir k1 h = elim (Bool-cases (pgdir == 0)) [
    | inl e ↦ ground (arith, h, e)
    | inr ne ↦
        let (m, _, eq) =
          bind-ok (vmfree kernel_end k.memory pgdir) (λ m. ok (record k { memory = m })) k1
            (rw ne at h) in
        ground (arith, eq)
  ]

  free_kstack-table :
      (k : Kernel) (kstack : ℕ) (k1 : Kernel)
      → free_kstack kernel_end k kstack ≡ ok k1
      → k1.table ≡ k.table
  unfolding free_kstack
  free_kstack-table k kstack k1 h = elim (Bool-cases (kstack == 0)) [
    | inl e ↦ ground (arith, h, e)
    | inr ne ↦
        let (m, _, eq) =
          bind-ok (pfree kernel_end k.memory kstack) (λ m. ok (record k { memory = m })) k1
            (rw ne at h) in
        ground (arith, eq)
  ]

  -- `deallocate_process_unlocked` changes one slot of the table.
  pub deallocate_process_unlocked-table :
      (k : Kernel) (i : ℕ) (k1 : Kernel)
      → deallocate_process_unlocked kernel_end k i ≡ ok k1
      → k1.table ≡ set k.table i (cleared (at k.table i))
  unfolding deallocate_process_unlocked
  deallocate_process_unlocked-table k i k1 h =
      let p = proc_at k i in
      let finish : Kernel → Result Kernel = λ k. ok (put_proc k i (cleared p)) in
      let rest : Kernel → Result Kernel = λ k. free_kstack kernel_end k p.kstack >>= finish in
      let (m1, h1, g1) = bind-ok (free_pgdir kernel_end k p.pgdir) rest k1 h in
      let (m2, h2, g2) = bind-ok (free_kstack kernel_end m1 p.kstack) finish k1 g1 in
      let same : m2.table ≡ k.table =
        free_kstack-table m1 p.kstack m2 h2 ∙ free_pgdir-table k p.pgdir m1 h1 in
      ap (λ q. q.table) (sym (ok-inj g2)) ∙ ap (λ t. set t i (cleared p)) same

  -- the memory without the address space and the stack of the process `p`
  abbrev pub without_space : KernelMem → Process → Result KernelMem
  without_space m p = if p.pgdir == 0 then ok m else vmfree kernel_end m p.pgdir

  abbrev pub without_stack : KernelMem → Process → Result KernelMem
  without_stack m p = if p.kstack == 0 then ok m else pfree kernel_end m p.kstack

  free_pgdir_lem :
      (k : Kernel) (p : Process)
      → free_pgdir kernel_end k p.pgdir
        ≡ (without_space k.memory p >>= λ m. ok (record k { memory = m }))
  unfolding free_pgdir
  free_pgdir_lem k p = elim (Bool-cases (p.pgdir == 0)) [
    | inl null ↦ rw null refl
    | inr some1 ↦ rw some1 refl
  ]

  free_kstack_lem :
      (k : Kernel) (p : Process)
      → free_kstack kernel_end k p.kstack
        ≡ (without_stack k.memory p >>= λ m. ok (record k { memory = m }))
  unfolding free_kstack
  free_kstack_lem k p = elim (Bool-cases (p.kstack == 0)) [
    | inl null ↦ rw null refl
    | inr some1 ↦ rw some1 refl
  ]

  -- The kernel `k1` is `k` with the process in slot `i` gone: its memory is freed, its slot can be
  -- given to another, and nothing else has changed.
  pub record Reaped (k : Kernel) (i : ℕ) (k1 : Kernel) : Type 0 where
    pub space : KernelMem
    pub space_freed : without_space k.memory (proc_at k i) ≡ ok space
    pub stack_freed : without_stack space (proc_at k i) ≡ ok k1.memory
    pub free_slot : (proc_at k1 i).state ≡ unused
    pub no_pid : (proc_at k1 i).pid ≡ 0
    pub no_parent : (proc_at k1 i).parent ≡ none
    pub no_space : (proc_at k1 i).pgdir ≡ 0
    pub no_stack : (proc_at k1 i).kstack ≡ 0
    pub not_killed : (proc_at k1 i).killed ≡ false
    pub others : (j : ℕ) → j ≢ i → proc_at k1 j ≡ proc_at k j
    pub files : k1.files ≡ k.files
    pub nextpid : k1.nextpid ≡ k.nextpid
    pub init1 : k1.init1 ≡ k.init1

  -- The page tables or the stack are no pages of the allocator.
  abbrev pub BadMemory : Kernel → ℕ → Type 0
  BadMemory k i =
      (without_space k.memory (proc_at k i) >>= λ m. without_stack m (proc_at k i)) ≡ panic

  put-Reaped :
      (k : Kernel) (i : ℕ) (m m1 : KernelMem)
      → i < length k.table
      → without_space k.memory (proc_at k i) ≡ ok m
      → without_stack m (proc_at k i) ≡ ok m1
      → Reaped k i (put_proc (record k { memory = m1 }) i (cleared (proc_at k i)))
  put-Reaped k i m m1 lt e1 e2 =
      let here = get_or-set_self k.table i (cleared (proc_at k i)) zero_process lt in
      record {
        space = m;
        space_freed = e1;
        stack_freed = e2;
        free_slot = ap (λ q. q.state) here;
        no_pid = ap (λ q. q.pid) here;
        no_parent = ap (λ q. q.parent) here;
        no_space = ap (λ q. q.pgdir) here;
        no_stack = ap (λ q. q.kstack) here;
        not_killed = ap (λ q. q.killed) here;
        others = λ j ne.
            get_or-set_ne k.table i j (cleared (proc_at k i)) zero_process (λ e. ne (sym e));
        files = refl;
        nextpid = refl;
        init1 = refl;
      }

  pub deallocate_process_unlocked_lem :
      (k : Kernel) (i : ℕ)
      → i < length k.table
      → (BadMemory k i × (deallocate_process_unlocked kernel_end k i ≡ panic))
        ⊎ ((k1 : Kernel) × Reaped k i k1 × (deallocate_process_unlocked kernel_end k i ≡ ok k1))
  unfolding deallocate_process_unlocked
  deallocate_process_unlocked_lem k i lt =
      let p = proc_at k i in
      let finish : Kernel → Result Kernel = λ k. ok (put_proc k i (cleared p)) in
      let rest : Kernel → Result Kernel = λ k. free_kstack kernel_end k p.kstack >>= finish in
      let save : Kernel → KernelMem → Result Kernel = λ k m. ok (record k { memory = m }) in
      let stack : KernelMem → Result KernelMem = λ m. without_stack m p in
      elim (Result-cases (without_space k.memory p)) [
        | inl bad ↦ inl (
          ap (λ r. r >>= stack) bad,
          ap (λ r. r >>= rest) (free_pgdir_lem k p ∙ ap (λ r. r >>= save k) bad),
        )
        | inr (m, e1) ↦
            let k1 : Kernel = record k { memory = m } in
            let to_k1 =
              ap (λ r. r >>= rest) (free_pgdir_lem k p ∙ ap (λ r. r >>= save k) e1)
              ∙ ap (λ r. r >>= finish) (free_kstack_lem k1 p) in
            elim (Result-cases (without_stack m p)) [
              | inl bad ↦
                  inl (
                    ap (λ r. r >>= stack) e1 ∙ bad,
                    to_k1 ∙ ap (λ r. (r >>= save k1) >>= finish) bad,
                  )
              | inr (m1, e2) ↦ inr (
                put_proc (record k { memory = m1 }) i (cleared p),
                put-Reaped k i m m1 lt e1 e2,
                to_k1 ∙ ap (λ r. (r >>= save k1) >>= finish) e2,
              )
            ]
      ]
