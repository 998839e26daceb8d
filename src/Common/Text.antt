-- ===== src/Common/Text.antt =====
-- Texts as the source builds and reads them: code points, joining, and numbers in a template.
use Prim.Native.Char.{code}
use Prim.Native.String
use Prim.Native.String.{String}
use react_native_sync_provid.Common.{
  ℕ, zero, suc, ◌/◌, ◌≡◌, refl, ◌%◌, List, [], ◌∷◌, ltb, if◌then◌else◌,
}

infixr 65 ◌⧺◌
abbrev pub ◌⧺◌ : String → String → String
s ⧺ t = String.◌++◌ s t

abbrev pub codes : String → List ℕ
codes String.[] = []
codes (String.◌∷◌ c s) = code c ∷ codes s

-- `parts.join(separator)`.
unfoldable pub join : String → List String → String
join separator [] = ""
join separator (s ∷ []) = s
join separator (s ∷ t ∷ rest) = s ⧺ separator ⧺ join separator (t ∷ rest)

abbrev digit : ℕ → String
digit zero = "0"
digit (suc zero) = "1"
digit (suc (suc zero)) = "2"
digit (suc (suc (suc zero))) = "3"
digit (suc (suc (suc (suc zero)))) = "4"
digit (suc (suc (suc (suc (suc zero))))) = "5"
digit (suc (suc (suc (suc (suc (suc zero)))))) = "6"
digit (suc (suc (suc (suc (suc (suc (suc zero))))))) = "7"
digit (suc (suc (suc (suc (suc (suc (suc (suc zero)))))))) = "8"
digit _ = "9"

show_from : ℕ → ℕ → String
show_from zero n = digit n
show_from (suc fuel) n =
    let rest = show_from fuel (n / 10) ⧺ digit (n % 10) in if ltb n 10 then digit n else rest

-- `${n}` for a count.
unfoldable pub show : ℕ → String
unfolding show_from
show n = show_from n n

show_test : show 1207 ≡ "1207"
unfolding show
show_test = refl
