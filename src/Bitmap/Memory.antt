-- ===== src/Bitmap/Memory.antt =====
-- A device in memory, with a bitmap of 16 clusters in one cluster of 4 bytes.
use rust_fs_ntfs.Base.{ℕ, ◌+◌, ◌≡◌, arith, Bool, true, false, leb, Bool-cases, inl, inr}
use rust_fs_ntfs.Base.{
  if◌then◌else◌, List, ◌∷◌, ◌++◌, length, take, drop, replicate, Option, some, none,
}
use rust_fs_ntfs.Base.{
  [], refl, ◌≤◌, ◌<◌, ◌∙◌, byte_at, splice, byte_at-splice_apart, byte_at-splice_in, byte_at-take,
  byte_at-drop, false,
}
use native.Mathlib.Decide.{dec_le}
use rust_fs_ntfs.Bitmap.Device.Contents.{IsFaithful}
use rust_fs_ntfs.Bitmap.Device.Read.{filled-splice}
use rust_fs_ntfs.Base.{length-take, length-drop}
use rust_fs_ntfs.Bitmap.Device.{BlockIo}
use rust_fs_ntfs.Bitmap.Device.Buffer.{FillsBuffer}
use rust_fs_ntfs.Bitmap.{BitmapLocation}

abbrev pub small_bitmap : BitmapLocation
small_bitmap = record {
  params = record {
    bytes_per_sector = 1;
    sectors_per_cluster = 1;
    cluster_size = 4;
    mft_lcn = 1;
    file_record_size = 16;
    total_sectors = 16;
    serial_number = 0;
    index_block_size = 16;
    oem_id = [];
  };
  runs = record { starting_vcn = 0; length = 1; lcn = some 2 } ∷ [];
  total_bits = 16;
  value_length = 2;
  mft_clusters = 1;
  other_protected = [];
}

-- A device in memory, as the source's tests have it.
abbrev pub memory_read : List ℕ → ℕ → ℕ → Option (List ℕ)
memory_read d offset len =
    if leb (offset + len) (length d) then some (take len (drop offset d)) else none

abbrev pub memory_write : List ℕ → ℕ → List ℕ → List ℕ × Bool
memory_write d offset b =
    if leb (offset + length b) (length d)
    then (take offset d ++ (b ++ drop (offset + length b) d), true)
    else (d, false)

abbrev pub memory : BlockIo (List ℕ)
memory = record {
  read_exact_at = memory_read;
  write_all_at = memory_write;
  sync = λ d. (d, true);
  size = length;
}

pub memory-FillsBuffer : FillsBuffer memory
memory-FillsBuffer d offset len b e = elim (Bool-cases (leb (offset + len) (length d))) [
  | inl inside ↦
      let e' = rw inside at e in
      let same : take len (drop offset d) ≡ b = cc in
      rw (← same) (ground (arith, inside, length-take len (drop offset d), length-drop offset d))
  | inr past ↦ let e' = rw past at e in cc
]

abbrev pub blank : List ℕ
blank = replicate 16 0

-- The bytes of a list are those of a device in memory.
abbrev pub memory_contents : List ℕ → ℕ → ℕ
memory_contents d i = byte_at d i

memory_write_in :
    (d : List ℕ) (offset : ℕ) (b : List ℕ)
    → offset + length b ≤ length d
    → memory_write d offset b ≡ (splice d offset b, true)
memory_write_in d offset b h =
    let inside : leb (offset + length b) (length d) ≡ true = ground arith in
    rw (inside, filled-splice d offset b (offset + length b) refl h) refl

memory_write_out :
    (d : List ℕ) (offset : ℕ) (b : List ℕ)
    → ¬ (offset + length b ≤ length d)
    → memory_write d offset b ≡ (d, false)
memory_write_out d offset b h =
    let outside : leb (offset + length b) (length d) ≡ false = ground arith in rw outside refl

memory_read_same :
    (d : List ℕ) (offset len : ℕ) (b : List ℕ)
    → memory_read d offset len ≡ some b
    → (i : ℕ) → i < len
    → byte_at b i ≡ byte_at d (offset + i)
memory_read_same d offset len b e i lt = elim (Bool-cases (leb (offset + len) (length d))) [
  | inl inside ↦
      let e' = rw inside at e in
      let same : take len (drop offset d) ≡ b = cc in
      rw (← same) (byte_at-take len i (drop offset d) lt ∙ byte_at-drop offset i d)
  | inr past ↦ let e' = rw past at e in absurd cc
]

pub memory-IsFaithful : IsFaithful memory memory_contents
memory-IsFaithful = record {
  reads =
      λ d offset len b e. (memory-FillsBuffer d offset len b e, memory_read_same d offset len b e);
  writes_beside = λ d offset b i apart. elim (dec_le (offset + length b) (length d)) [
    | yes h ↦ rw (memory_write_in d offset b h) (byte_at-splice_apart d offset b i apart)
    | no h ↦ rw (memory_write_out d offset b h) refl
  ];
  writes = λ d offset b done i lt. elim (dec_le (offset + length b) (length d)) [
    | yes h ↦ rw (memory_write_in d offset b h) (byte_at-splice_in d offset b i lt h)
    | no h ↦ let done' = rw (memory_write_out d offset b h) at done in absurd cc
  ];
  syncs = λ d i. refl;
}

pub memory_reads :
    (d : List ℕ) (offset len : ℕ)
    → offset + len ≤ length d
    → (b : List ℕ) × (memory_read d offset len ≡ some b)
memory_reads d offset len h =
    let inside : leb (offset + len) (length d) ≡ true = ground arith in
    (take len (drop offset d), rw inside refl)
