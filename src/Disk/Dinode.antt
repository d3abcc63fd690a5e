-- ===== src/Disk/Dinode.antt =====
-- kernel/fs/fdefs.h: an inode as it lies on the disk.
use melon_os.Common.{
  ℕ, zero, suc, ◌+◌, ◌*◌, ◌/◌, ◌%◌, ◌^◌, ◌==◌, if◌then◌else◌, List, [], ◌∷◌, ◌++◌, get_or, set,
}
use melon_os.Fs.Types.{FileType, DInode}
use melon_os.Disk.Types.{SuperBlock, bsize}
use melon_os.Disk.Block.{word_at}

abbrev pub ndirect : ℕ
ndirect = 12

abbrev pub maxfile : ℕ
maxfile = (ndirect + bsize / 4) * bsize

abbrev pub ndev : ℕ
ndev = 32

-- `sizeof(DInode)`, which is packed
abbrev pub dinode_size : ℕ
dinode_size = 66

abbrev pub inode_per_block : ℕ
inode_per_block = bsize / dinode_size

abbrev pub get_inode_block : ℕ → SuperBlock → ℕ
get_inode_block inum sb = (inum / inode_per_block + sb.inodestart) % 2 ^ 32

-- `memmove` of bytes into a buffer
unfoldable pub overwrite : List ℕ → ℕ → List ℕ → List ℕ
overwrite xs i [] = xs
overwrite xs i (b ∷ bs) = overwrite (set xs i b) (suc i) bs

abbrev pub half_bytes : ℕ → List ℕ
half_bytes v = v % 256 ∷ v / 256 % 256 ∷ []

abbrev pub word_bytes : ℕ → List ℕ
word_bytes v = v % 256 ∷ v / 2 ^ 8 % 256 ∷ v / 2 ^ 16 % 256 ∷ v / 2 ^ 24 % 256 ∷ []

abbrev pub half_at : List ℕ → ℕ → ℕ
half_at bytes i = get_or bytes i 0 + get_or bytes (i + 1) 0 * 2 ^ 8

-- `FileType`; no other number is stored
abbrev pub type_number : FileType → ℕ
type_number FileType.none = 0
type_number FileType.dir = 1
type_number FileType.file = 2
type_number FileType.dev = 3

abbrev pub number_type : ℕ → FileType
number_type n =
    if n == 1
    then FileType.dir
    else if n == 2
    then FileType.file
    else if n == 3
    then FileType.dev
    else FileType.none

abbrev pub words_from : ℕ → List ℕ → ℕ → List ℕ
words_from zero bytes i = []
words_from (suc n) bytes i = word_at bytes i ∷ words_from n bytes (i + 4)

abbrev pub words_bytes : List ℕ → List ℕ
words_bytes [] = []
words_bytes (v ∷ vs) = word_bytes v ++ words_bytes vs

-- A packed `DInode` at the byte `i`.
abbrev pub decode : List ℕ → ℕ → DInode
decode bytes i = record {
  type = number_type (word_at bytes i);
  major = half_at bytes (i + 4);
  minor = half_at bytes (i + 6);
  nlink = half_at bytes (i + 8);
  size = word_at bytes (i + 10);
  addrs = words_from (ndirect + 1) bytes (i + 14);
}

abbrev pub encode : DInode → List ℕ
encode d =
    word_bytes (type_number d.type)
    ++ half_bytes d.major
    ++ half_bytes d.minor
    ++ half_bytes d.nlink
    ++ word_bytes d.size
    ++ words_bytes d.addrs
