-- ===== src/IdGenerator/Uuid.antt =====
-- What generateId returns is a version 4 UUID.
use native.Mathlib.Nat.{div-lt_iff_lt-mul}
use react_native_sync_provid.Common.{
  ℕ, zero, suc, ◌*◌, ◌/◌, ◌≤◌, ◌<◌, ◌≡◌, ◌⊎◌, refl, List, [], ◌∷◌, ◌++◌, length, All, arith,
}
use react_native_sync_provid.Backoff.Exact.{Fraction}
use react_native_sync_provid.IdGenerator.{nibble, variant, hex_digit, replaced, generate_id}

-- A digit 0-9 or a letter a-f.
abbrev pub IsHex : ℕ → Type 0
IsHex c = ((48 ≤ c) × (c ≤ 57)) ⊎ ((97 ≤ c) × (c ≤ 102))

-- 8, 9, a or b.
abbrev pub IsVariant : ℕ → Type 0
IsVariant c = ((56 ≤ c) × (c ≤ 57)) ⊎ ((97 ≤ c) × (c ≤ 98))

abbrev pub AreHex : ℕ → List ℕ → Type 0
AreHex n cs = (length cs ≡ n) × All IsHex cs

-- Five groups of hexadecimal digits with dashes (45) in between: the third begins with the version
-- 4 (52), the fourth with the variant.
pub record IsUuid (id : List ℕ) : Type 0 where
  pub time_low : List ℕ
  pub time_mid : List ℕ
  pub time_high : List ℕ
  pub variant : ℕ
  pub sequence : List ℕ
  pub node : List ℕ
  pub grouped :
      id ≡ time_low ++ 45 ∷ time_mid ++ 45 ∷ 52 ∷ time_high ++ 45 ∷ variant ∷ sequence ++ 45 ∷ node
  pub time_low_digits : AreHex 8 time_low
  pub time_mid_digits : AreHex 4 time_mid
  pub time_high_digits : AreHex 3 time_high
  pub variant_digit : IsVariant variant
  pub sequence_digits : AreHex 3 sequence
  pub node_digits : AreHex 12 node

-- `Math.random()` is less than 1.
abbrev pub IsBelowOne : Fraction → Type 0
IsBelowOne random = random.numerator < random.denominator

nibble_bound : (random : Fraction) → IsBelowOne random → nibble random < 16
unfolding nibble
nibble_bound random h =
    let positive : 0 < random.denominator = omega (arith, h) in
    let below : random.numerator * 16 / random.denominator < 16 =
      (div-lt_iff_lt-mul positive).1 (omega (arith, h)) in
    omega (arith, below)

hex_digit-IsHex : (v : ℕ) → v < 16 → IsHex (hex_digit v)
hex_digit-IsHex v h = ground arith

hex_digit-IsVariant : (r : ℕ) → IsVariant (hex_digit (variant r))
hex_digit-IsVariant r = ground arith

module _ (random : ℕ → Fraction) where
  digits : ℕ → ℕ → List ℕ
  digits i zero = []
  digits i (suc n) = hex_digit (nibble (random i)) ∷ digits (suc i) n

  digits-AreHex : ((i : ℕ) → IsBelowOne (random i)) → (i n : ℕ) → AreHex n (digits i n)
  unfolding digits
  digits-AreHex h i zero = (refl, tt)
  digits-AreHex h i (suc n) =
      let (count, all) = digits-AreHex h (suc i) n in
      (omega (arith, count), (hex_digit-IsHex _ (nibble_bound (random i) (h i)), all))

  -- Where `Math.random()` is less than 1, generateId returns 36 characters of the documented form:
  -- five groups of hexadecimal digits with dashes in between, the version digit 4, and the variant
  -- digit 8, 9, a or b.
  pub generate_id-IsUuid :
      ((i : ℕ) → IsBelowOne (random i))
      → (length (generate_id random) ≡ 36) × IsUuid (generate_id random)
  unfolding generate_id replaced digits
  generate_id-IsUuid h = (
    refl,
    record {
      time_low = digits 0 8;
      time_mid = digits 8 4;
      time_high = digits 12 3;
      variant = hex_digit (variant (nibble (random 15)));
      sequence = digits 16 3;
      node = digits 19 12;
      grouped = refl;
      time_low_digits = digits-AreHex h 0 8;
      time_mid_digits = digits-AreHex h 8 4;
      time_high_digits = digits-AreHex h 12 3;
      variant_digit = hex_digit-IsVariant (nibble (random 15));
      sequence_digits = digits-AreHex h 16 3;
      node_digits = digits-AreHex h 19 12;
    },
  )
