-- ===== src/Types/Number.antt =====
-- The numbers of the source that a caller supplies. A finite one is an integer: fractions and
-- the rounding of floating point are left out.
use react_native_sync_provid.Common.Int.{ℤ}

pub data Number : Type 0 where
  nan : Number
  infinity : Number
  minus_infinity : Number
  finite : ℤ → Number
