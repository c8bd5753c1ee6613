-- ===== src/Log/Phases.antt =====
-- What is on the disk in each phase of a commit.
use fp_sisop20_b.Prelude.{
  ℕ, zero, suc, ◌+◌, ◌≤◌, ◌<◌, ◌≡◌, refl, sym, ap, ◌⊎◌, inl, inr, Bool, true, false, ◌||◌, arith,
  ◌==◌, if◌then◌else◌, update, Bool-cases, ==→eq,
}
use fp_sisop20_b.Log.{Block, Blocks, logsize}

-- A block outside the log.
abbrev pub IsHome : (start size b : ℕ) → Type 0
IsHome start size b = (b < start) ⊎ (start + size ≤ b)

-- The block is one of the first `j` that the log holds.
abbrev pub among : (j : ℕ) → (ℕ → ℕ) → ℕ → Bool
among zero block b = false
among (suc j) block b = (b == block j) || among j block b

-- The home blocks with the first `j` of the log's installed.
abbrev pub installed : (j : ℕ) → (ℕ → ℕ) → (new old : Blocks) → Blocks
installed j block new old b = if among j block b then new b else old b

-- The log's place, and the transaction in it.
pub record Trans (start size n : ℕ) (block : ℕ → ℕ) : Type 0 where
  pub fits : n < size
  pub small : n ≤ logsize
  pub home : (i : ℕ) → i < n → IsHome start size (block i)

-- The header holds this transaction.
pub record Header (n : ℕ) (block : ℕ → ℕ) (words : Block) : Type 0 where
  pub count : words 0 ≡ n
  pub entries : (i : ℕ) → i < n → words (i + 1) ≡ block i

-- Before the commit point: the header is empty, and the home blocks are the old ones.
pub record IsOld (start size : ℕ) (old disk : Blocks) : Type 0 where
  pub header : disk start 0 ≡ 0
  pub homes : (b : ℕ) → IsHome start size b → disk b ≡ old b

-- After it: the header and the log blocks hold the transaction, of which `j` blocks are installed.
pub record IsCommitted (start size n : ℕ) (block : ℕ → ℕ) (new old : Blocks) (j : ℕ) (disk : Blocks)
    : Type 0 where
  pub header : Header n block (disk start)
  pub logged : (i : ℕ) → i < n → disk (start + i + 1) ≡ new (block i)
  pub homes : (b : ℕ) → IsHome start size b → disk b ≡ installed j block new old b

-- At the end: the header is empty again, and the home blocks are the new ones.
pub IsNew : (start size n : ℕ) → (ℕ → ℕ) → (new old disk : Blocks) → Type 0
IsNew start size n block new old disk = IsOld start size (installed n block new old) disk

pub among-suc :
    (j : ℕ) (block : ℕ → ℕ) (b : ℕ) → among j block b ≡ true → among (suc j) block b ≡ true
among-suc j block b h = ground arith

among_less :
    (n j : ℕ) (block : ℕ → ℕ) (b : ℕ) → j ≤ n → among n block b ≡ false → among j block b ≡ false
among_less zero j block b h off = let e : j ≡ 0 = omega arith in rw e refl
among_less (suc n) j block b h off = elim (Bool-cases (j == suc n)) [
  | inl is ↦ rw (==→eq j (suc n) is) off
  | inr ne ↦ among_less n j block b (ground arith) (ground arith)
]

-- Installing on top of a part that is installed already.
pub installed_again :
    (n j : ℕ) (block : ℕ → ℕ) (new old : Blocks) (b : ℕ)
    → j ≤ n
    → installed n block new (installed j block new old) b ≡ installed n block new old b
installed_again n j block new old b h = elim (Bool-cases (among n block b)) [
  | inl on ↦ rw on refl
  | inr off ↦ rw (off, among_less n j block b h off) refl
]

-- The next block is installed.
pub installed_next :
    (j : ℕ) (block : ℕ → ℕ) (new old disk : Blocks) (b : ℕ)
    → disk b ≡ installed j block new old b
    → update disk (block j) (new (block j)) b ≡ installed (suc j) block new old b
installed_next j block new old disk b e = elim (Bool-cases (b == block j)) [
  | inl is ↦ rw is (ap new (sym (==→eq b (block j) is)))
  | inr off ↦ rw off e
]
