-- ===== src/IdGenerator.antt =====
-- src/utils/idGenerator.ts. A text is its code points. `Math.random()` is a parameter: the fraction
-- that its i-th call gives.
pub mod Uuid
pub mod Tests
use react_native_sync_provid.Common.{
  ℕ, suc, ◌+◌, ◌*◌, ◌/◌, ◌%◌, ◌^◌, ◌==◌, ltb, List, [], ◌∷◌, if◌then◌else◌,
}
use react_native_sync_provid.Common.Text.{codes}
use react_native_sync_provid.Backoff.Exact.{Fraction}

-- `'xxxxxxxx-xxxx-4xxx-yxxx-xxxxxxxxxxxx'`.
abbrev pub template : List ℕ
template = codes "xxxxxxxx-xxxx-4xxx-yxxx-xxxxxxxxxxxx"

-- `(Math.random() * 16) | 0`: what is not negative is rounded down, to 32 bits.
unfoldable pub nibble : Fraction → ℕ
nibble random = random.numerator * 16 / random.denominator % 2 ^ 32

-- `(r & 0x3) | 0x8`: the two have no bit in common.
abbrev pub variant : ℕ → ℕ
variant r = r % 4 + 8

-- `v.toString(16)`, for a `v` of one digit.
abbrev pub hex_digit : ℕ → ℕ
hex_digit v = if ltb v 10 then 48 + v else 87 + v

-- `.replace(/[xy]/g, ...)`, from the i-th call of `Math.random()` on. 120 is `x`, and 121 `y`.
unfoldable pub replaced : (ℕ → Fraction) → ℕ → List ℕ → List ℕ
unfolding nibble
replaced random i [] = []
replaced random i (c ∷ cs) =
    let r = nibble (random i) in
    let rest = replaced random (suc i) cs in
    let same = replaced random i cs in
    if c == 120
    then hex_digit r ∷ rest
    else if c == 121
    then hex_digit (variant r) ∷ rest
    else c ∷ same

unfoldable pub generate_id : (ℕ → Fraction) → List ℕ
unfolding replaced
generate_id random = replaced random 0 template
