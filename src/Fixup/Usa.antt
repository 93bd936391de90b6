-- ===== src/Fixup/Usa.antt =====
-- Where the update sequence array and the ends of the sectors lie.
use rust_fs_ntfs.Base.{ℕ, ◌+◌, ◌-◌, ◌*◌, ◌≤◌, ◌<◌, arith}

-- The offset of the last two bytes of a sector.
abbrev pub tail_at : ℕ → ℕ → ℕ
tail_at bps sector = (sector + 1) * bps - 2

pub tail_apart : (b j k : ℕ) → 2 ≤ b → j < k → tail_at b j + 2 ≤ tail_at b k
tail_apart b j k h l = grind arith

pub tail_first : (b k : ℕ) → b ≤ tail_at b k + 2
tail_first b k = grind arith

pub tail_last : (b k n len : ℕ) → 2 ≤ b → k < n → n * b ≤ len → tail_at b k + 2 ≤ len
tail_last b k n len h l f = grind arith
