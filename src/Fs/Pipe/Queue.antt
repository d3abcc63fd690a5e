-- ===== src/Fs/Pipe/Queue.antt =====
-- kernel/pipe.c: the ring of a pipe as a queue of bytes.
use melon_os.Common.{
  ℕ, zero, suc, ◌+◌, ◌-◌, ◌%◌, ◌^◌, ◌<◌, ◌≤◌, ◌≡◌, ◌≢◌, ◌⊎◌, ap₂, refl, sym, ◌∙◌, ap, inl, inr,
  true, false, ◌==◌, List, [], ◌∷◌, ◌++◌, get_or, set, length, take, drop, get_or-set_self,
  get_or-set_ne, length-set, Bool-cases, arith, append-nil, append_assoc,
}
use melon_os.Fs.Pipe.{pipesz, Pipe, next_count, is_empty, is_full, read_loop, push_byte, write_loop}

-- the number of bytes in the ring
abbrev pub held : Pipe → ℕ
held p = (p.nwritten + 2 ^ 32 - p.nread) % 2 ^ 32

-- `n` bytes from the counter `c` on
abbrev pub bytes_from : List ℕ → ℕ → ℕ → List ℕ
bytes_from d zero c = []
bytes_from d (suc n) c = get_or d (c % pipesz) 0 ∷ bytes_from d n (next_count c)

-- What a pipe holds, the oldest byte first.
abbrev pub contents : Pipe → List ℕ
contents p = bytes_from p.bytes (held p) p.nread

pub record IsRing (p : Pipe) : Type 0 where
  pub size : length p.bytes ≡ pipesz
  pub read_bound : p.nread < 2 ^ 32
  pub written_bound : p.nwritten < 2 ^ 32
  pub capacity : held p ≤ pipesz

pub is_empty_iff : (p : Pipe) → IsRing p → (is_empty p) ≡ (held p == 0)
is_empty_iff p ring = ground (arith, ring.read_bound, ring.written_bound)

pub is_full_iff : (p : Pipe) → IsRing p → (is_full p) ≡ (held p == pipesz)
is_full_iff p ring = ground (arith, ring.read_bound, ring.written_bound)

pub held-full : (p : Pipe) → IsRing p → held p ≡ pipesz → is_full p ≡ true
held-full p ring h = ground (arith, is_full_iff p ring)

pub full-held : (p : Pipe) → IsRing p → is_full p ≡ true → held p ≡ pipesz
full-held p ring h = ground (arith, is_full_iff p ring)

pub length-bytes_from : (d : List ℕ) (n c : ℕ) → length (bytes_from d n c) ≡ n
length-bytes_from d zero c = refl
length-bytes_from d (suc n) c = ap suc (length-bytes_from d n (next_count c))

abbrev cell : ℕ → ℕ → ℕ
cell c j = (c + j) % 2 ^ 32 % pipesz

bytes_from-last :
    (d : List ℕ) (n c : ℕ)
    → c < 2 ^ 32
    → bytes_from d (suc n) c ≡ bytes_from d n c ++ (get_or d (cell c n) 0 ∷ [])
bytes_from-last d zero c lt = ap (λ i. get_or d i 0 ∷ []) (omega arith)
bytes_from-last d (suc n) c lt =
    ap (λ xs. get_or d (c % pipesz) 0 ∷ xs)
      (bytes_from-last d n (next_count c) (omega arith)
        ∙ ap (λ i. bytes_from d n (next_count c) ++ (get_or d i 0 ∷ [])) (omega arith))

bytes_from-frame :
    (d : List ℕ) (n c k b : ℕ)
    → ((j : ℕ) → j < n → cell c j ≢ k)
    → c < 2 ^ 32
    → bytes_from (set d k b) n c ≡ bytes_from d n c
bytes_from-frame d zero c k b h lt = refl
bytes_from-frame d (suc n) c k b h lt =
    ap₂ (λ x xs. x ∷ xs)
      (get_or-set_ne d k (c % pipesz) b 0 (λ e. h 0 (omega arith) (omega (arith, e))))
      (bytes_from-frame d n (next_count c) k b
        (λ j le e. h (suc j) (omega arith) (omega (arith, e))) (omega arith))

-- The byte behind the last goes into a cell that the others do not use.
bytes_from-push :
    (d : List ℕ) (n c b : ℕ)
    → length d ≡ pipesz
    → c < 2 ^ 32
    → n < pipesz
    → bytes_from (set d (cell c n) b) (suc n) c ≡ bytes_from d n c ++ (b ∷ [])
bytes_from-push d n c b size lt room =
    bytes_from-last (set d (cell c n) b) n c lt
    ∙ ap₂ (λ xs x. xs ++ (x ∷ []))
        (bytes_from-frame d n c (cell c n) b (λ j le e. omega (arith, e)) lt)
        (get_or-set_self d (cell c n) b 0 (omega arith))

room_below : (p : Pipe) → IsRing p → is_full p ≡ false → held p < pipesz
room_below p ring room = ground (arith, ring.capacity, is_full_iff p ring)

push-held : (p : Pipe) (b : ℕ) → IsRing p → is_full p ≡ false → held (push_byte p b) ≡ suc (held p)
push-held p b ring room = omega (arith, ring.read_bound, ring.written_bound, room_below p ring room)

pub push-IsRing : (p : Pipe) (b : ℕ) → IsRing p → is_full p ≡ false → IsRing (push_byte p b)
push-IsRing p b ring room = record {
  size = length-set p.bytes (p.nwritten % pipesz) b ∙ ring.size;
  read_bound = ring.read_bound;
  written_bound = omega arith;
  capacity =
      ground (arith, ring.capacity, is_full_iff p ring, ring.read_bound, ring.written_bound, room);
}

-- One byte more in the queue.
pub push-contents :
    (p : Pipe) (b : ℕ)
    → IsRing p
    → is_full p ≡ false
    → contents (push_byte p b) ≡ contents p ++ (b ∷ [])
push-contents p b ring room =
    let n = held p in
    let more = push-held p b ring room in
    let place : p.nwritten % pipesz ≡ cell p.nread n =
      omega (arith, ring.read_bound, ring.written_bound) in
    ap₂ (λ k m. bytes_from (set p.bytes k b) m p.nread) place more
    ∙ bytes_from-push p.bytes n p.nread b ring.size ring.read_bound (room_below p ring room)

-- the pipe after one byte has been read
abbrev popped : Pipe → Pipe
popped p = record p { nread = next_count p.nread }

pop-IsRing : (p : Pipe) → IsRing p → is_empty p ≡ false → IsRing (popped p)
pop-IsRing p ring some1 = record {
  size = ring.size;
  read_bound = omega arith;
  written_bound = ring.written_bound;
  capacity =
      ground (arith, ring.capacity, is_empty_iff p ring, ring.read_bound, ring.written_bound);
}

pop-contents :
    (p : Pipe)
    → IsRing p
    → is_empty p ≡ false
    → contents p ≡ get_or p.bytes (p.nread % pipesz) 0 ∷ contents (popped p)
pop-contents p ring some1 =
    let less : held p ≡ suc (held (popped p)) =
      ground (arith, ring.capacity, is_empty_iff p ring, ring.read_bound, ring.written_bound) in
    ap (λ m. bytes_from p.bytes m p.nread) less

empty-contents : (p : Pipe) → is_empty p ≡ true → contents p ≡ []
empty-contents p none1 =
    let zero_held : held p ≡ 0 = ground arith in ap (λ m. bytes_from p.bytes m p.nread) zero_held

-- What the loop of `pipe_write` leaves of `bs`, with `room` free cells.
abbrev pub Written : ℕ → List ℕ → Pipe → List ℕ × Pipe → Type 0
Written room bs p (rest, q) =
    IsRing q
    × (contents q ≡ contents p ++ take room bs)
    × (rest ≡ drop room bs)
    × ((held q ≡ pipesz) ⊎ (rest ≡ []))

written :
    (bs : List ℕ) (room : ℕ) (p : Pipe)
    → IsRing p
    → held p + room ≡ pipesz
    → Written room bs p (write_loop bs p)
unfolding write_loop
written [] zero p ring eq = (ring, sym (append-nil (contents p)), refl, inr refl)
written [] (suc room) p ring eq = (ring, sym (append-nil (contents p)), refl, inr refl)
written (b ∷ bs) zero p ring eq =
    let full : is_full p ≡ true = ground (arith, is_full_iff p ring) in
    rw full (ring, sym (append-nil (contents p)), refl, inl (omega arith))
written (b ∷ bs) (suc room) p ring eq =
    let free : is_full p ≡ false = ground (arith, is_full_iff p ring) in
    let (ring1, queue, left, end) =
      written bs room (push_byte p b) (push-IsRing p b ring free)
        (omega (arith, eq, push-held p b ring free)) in
    rw free (
      ring1,
      queue
          ∙ ap (λ xs. xs ++ take room bs) (push-contents p b ring free)
          ∙ append_assoc (contents p) (b ∷ []) (take room bs),
      left,
      end,
    )

-- The loop of `pipe_write` adds bytes behind those in the pipe, as many as there is room for.
pub write_loop_lem :
    (bs : List ℕ) (p : Pipe) → IsRing p → Written (pipesz - held p) bs p (write_loop bs p)
write_loop_lem bs p ring = written bs (pipesz - held p) p ring (omega (arith, ring.capacity))

-- What the loop of `pipe_read` takes of a pipe.
abbrev pub Read : ℕ → Pipe → List ℕ × Pipe → Type 0
Read n p (bs, q) = IsRing q × (bs ≡ take n (contents p)) × (contents q ≡ drop n (contents p))

-- The loop of `pipe_read` takes the oldest bytes, in their order.
pub read_loop_lem : (n : ℕ) (p : Pipe) → IsRing p → Read n p (read_loop n p)
unfolding read_loop
read_loop_lem zero p ring = (ring, refl, refl)
read_loop_lem (suc n) p ring = elim (Bool-cases (is_empty p)) [
  | inl none1 ↦ rw (none1, empty-contents p none1) (ring, refl, refl)
  | inr some1 ↦
      let (ring1, taken, left) = read_loop_lem n (popped p) (pop-IsRing p ring some1) in
      rw (some1, pop-contents p ring some1)
        (ring1, ap (λ xs. get_or p.bytes (p.nread % pipesz) 0 ∷ xs) taken, left)
]
