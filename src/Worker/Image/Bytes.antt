-- ===== src/Worker/Image/Bytes.antt =====
-- Buffers as lists of bytes, and the numbers in them.
use backend.Prelude.{ℕ, ◌+◌, ◌*◌, ◌/◌, ◌%◌, Bool, List, [], ◌∷◌, ◌++◌}

abbrev pub Bytes : Type 0
Bytes = List ℕ

-- What a walk over a container comes to: the error that the code throws, or the bytes it keeps. The
-- fuel of a walk may give out.
pub data Walk : Type 0 where
  out_of_fuel threw : Walk
  kept : Bytes → Walk

abbrev pub prepend : Bytes → Walk → Walk
prepend segment out_of_fuel = out_of_fuel
prepend segment threw = threw
prepend segment (kept bytes) = kept (segment ++ bytes)

-- `writeUInt16LE` and `writeUInt32LE`
abbrev pub uint16_le : ℕ → Bytes
uint16_le n = n % 256 ∷ n / 256 % 256 ∷ []

abbrev pub uint32_le : ℕ → Bytes
uint32_le n = n % 256 ∷ n / 256 % 256 ∷ n / 65536 % 256 ∷ n / 16777216 % 256 ∷ []

-- `exifOrientationBlock`
unfoldable pub exif_orientation_block : ℕ → Bytes
exif_orientation_block orientation =
    b'I' ∷ b'I' ∷ uint16_le 42
    ++ uint32_le 8
    ++ uint16_le 1
    ++ uint16_le 274
    ++ uint16_le 3
    ++ uint32_le 1
    ++ uint16_le orientation
    ++ uint16_le 0
    ++ uint32_le 0

-- What a walk that only looks comes to.
pub data Check : Type 0 where
  out_of_fuel threw : Check
  found : Bool → Check

-- `readUInt32BE` and `readUInt32LE` of four bytes.
abbrev pub from_be : ℕ → ℕ → ℕ → ℕ → ℕ
from_be a b c d = ((a * 256 + b) * 256 + c) * 256 + d

abbrev pub from_le : ℕ → ℕ → ℕ → ℕ → ℕ
from_le a b c d = from_be d c b a
