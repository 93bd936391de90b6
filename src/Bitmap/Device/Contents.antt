-- ===== src/Bitmap/Device/Contents.antt =====
-- What the theorems on the bytes of a device ask of it, and what a list of chunks says of them.
use rust_fs_ntfs.Base.{
  ℕ, ◌+◌, ◌≤◌, ◌<◌, ◌≡◌, ◌⊎◌, inl, inr, arith, true, List, [], ◌∷◌, length, All, some, byte_at,
}
use rust_fs_ntfs.Bitmap.{MappedChunk}
use rust_fs_ntfs.Bitmap.Device.{BlockIo}

-- `contents d i` is the byte at the offset `i`. A read that succeeds gives those bytes. A write changes
-- nothing beside its range, and if it succeeds the range holds what was written; a write that fails
-- may have written any part of it. A sync changes no byte.
pub record IsFaithful {D : Type 0} (dev : BlockIo D) (contents : D → ℕ → ℕ) : Type 0 where
  pub reads :
      (d : D) (offset len : ℕ) (b : List ℕ)
      → dev.read_exact_at d offset len ≡ some b
      → (length b ≡ len) × ((i : ℕ) → i < len → byte_at b i ≡ contents d (offset + i))
  pub writes_beside :
      (d : D) (offset : ℕ) (b : List ℕ) (i : ℕ)
      → (i < offset) ⊎ (offset + length b ≤ i)
      → contents (dev.write_all_at d offset b).0 i ≡ contents d i
  pub writes :
      (d : D) (offset : ℕ) (b : List ℕ)
      → (dev.write_all_at d offset b).1 ≡ true
      → (i : ℕ) → i < length b
      → contents (dev.write_all_at d offset b).0 (offset + i) ≡ byte_at b i
  pub syncs : (d : D) (i : ℕ) → contents (dev.sync d).0 i ≡ contents d i

-- An offset beside a chunk, and beside all chunks of a list.
abbrev pub Beside : ℕ → MappedChunk → Type 0
Beside i c = (i < c.disk_offset) ⊎ (c.disk_offset + c.len ≤ i)

-- The bytes of a chunk on the device are those that the buffer has for it.
abbrev pub Holds : (ℕ → ℕ) → List ℕ → MappedChunk → Type 0
Holds bytes buf c = (i : ℕ) → i < c.len → bytes (c.disk_offset + i) ≡ byte_at buf (c.cursor + i)

-- Two states of a device that agree beside the chunks.
abbrev pub AgreeBeside : List MappedChunk → (ℕ → ℕ) → (ℕ → ℕ) → Type 0
AgreeBeside chunks bytes bytes' = (i : ℕ) → All (Beside i) chunks → bytes' i ≡ bytes i

-- No two chunks share a byte of the device.
abbrev pub Disjoint : MappedChunk → MappedChunk → Type 0
Disjoint c c' = (c.disk_offset + c.len ≤ c'.disk_offset) ⊎ (c'.disk_offset + c'.len ≤ c.disk_offset)

abbrev pub Apart : List MappedChunk → Type 0
Apart [] = Unit
Apart (c ∷ chunks) = All (Disjoint c) chunks × Apart chunks

pub Beside-Disjoint :
    (c : MappedChunk) (chunks : List MappedChunk) (i : ℕ)
    → All (Disjoint c) chunks
    → i < c.len
    → All (Beside (c.disk_offset + i)) chunks
Beside-Disjoint c [] i a h = tt
Beside-Disjoint c (x ∷ xs) i (inl p, a) h = (inl (omega arith), Beside-Disjoint c xs i a h)
Beside-Disjoint c (x ∷ xs) i (inr p, a) h = (inr (omega arith), Beside-Disjoint c xs i a h)
