-- ===== src/Validation/Url.antt =====
-- src/utils/validateSyncItem.ts: the test /^https?:\/\/[^\s]+$/i.test(url), over code points.
use mathlib.Core.Bool.{and-eq-true_iff}
use react_native_sync_provid.Common.{
  ℕ, ◌+◌, ◌≡◌, ◌↔◌, ◌⊎◌, inl, inr, Bool, true, false, not, ◌&&◌, ◌||◌, List, [], ◌∷◌, ◌++◌, All,
  leb, ◌==◌, arith, refl, ap, Bool-cases,
}

-- What `\s` matches.
unfoldable pub is_space : ℕ → Bool
is_space c =
    leb 9 c && leb c 13
    || c == 32
    || c == 160
    || c == 5760
    || leb 8192 c && leb c 8202
    || c == 8232
    || c == 8233
    || c == 8239
    || c == 8287
    || c == 12288
    || c == 65279

-- A lower-case letter matches itself and its capital, under the flag `i`.
abbrev pub is_letter : ℕ → ℕ → Bool
is_letter letter c = c == letter || c + 32 == letter

-- `[^\s]+$`.
unfoldable pub no_spaces : List ℕ → Bool
no_spaces [] = true
no_spaces (c ∷ cs) = not (is_space c) && no_spaces cs

unfoldable pub matches_rest : List ℕ → Bool
unfolding no_spaces
matches_rest [] = false
matches_rest (c ∷ cs) = no_spaces (c ∷ cs)

-- `:\/\/[^\s]+$`.
unfoldable pub matches_authority : List ℕ → Bool
unfolding matches_rest
matches_authority (a ∷ b ∷ c ∷ cs) = a == b':' && b == b'/' && c == b'/' && matches_rest cs
matches_authority _ = false

-- `s?:\/\/[^\s]+$`: with the optional letter, or without it.
unfoldable pub matches_scheme_end : List ℕ → Bool
unfolding matches_authority
matches_scheme_end [] = false
matches_scheme_end (c ∷ cs) = is_letter b's' c && matches_authority cs || matches_authority (c ∷ cs)

unfoldable pub is_http_url : List ℕ → Bool
unfolding matches_scheme_end
is_http_url (h ∷ t ∷ u ∷ p ∷ cs) =
    is_letter b'h' h
    && is_letter b't' t
    && is_letter b't' u
    && is_letter b'p' p
    && matches_scheme_end cs
is_http_url _ = false

-- The same, stated as a decomposition of the text.
abbrev pub SameLetters : List ℕ → List ℕ → Type 0
SameLetters [] [] = Unit
SameLetters (c ∷ cs) (d ∷ ds) = ((d ≡ c) ⊎ (d + 32 ≡ c)) × SameLetters cs ds
SameLetters _ _ = ⊥

pub record IsHttpUrl (url : List ℕ) : Type 0 where
  pub scheme : List ℕ
  pub first : ℕ
  pub rest : List ℕ
  pub split : url ≡ scheme ++ (b':' ∷ b'/' ∷ b'/' ∷ first ∷ rest)
  pub is_scheme :
      SameLetters (b'h' ∷ b't' ∷ b't' ∷ b'p' ∷ []) scheme
      ⊎ SameLetters (b'h' ∷ b't' ∷ b't' ∷ b'p' ∷ b's' ∷ []) scheme
  pub no_space : All (λ c. is_space c ≡ false) (first ∷ rest)

no_spaces-All : (cs : List ℕ) → no_spaces cs ≡ true → All (λ c. is_space c ≡ false) cs
unfolding no_spaces
no_spaces-All [] h = tt
no_spaces-All (c ∷ cs) h = ground (arith, no_spaces-All cs)

All-no_spaces : (cs : List ℕ) → All (λ c. is_space c ≡ false) cs → no_spaces cs ≡ true
unfolding no_spaces
All-no_spaces [] h = refl
All-no_spaces (c ∷ cs) (h, hs) = ground (arith, All-no_spaces cs hs)

-- The three characters and what follows them.
record Authority (cs : List ℕ) : Type 0 where
  first : ℕ
  rest : List ℕ
  split : cs ≡ b':' ∷ b'/' ∷ b'/' ∷ first ∷ rest
  no_space : All (λ c. is_space c ≡ false) (first ∷ rest)

matches_authority_sound : (cs : List ℕ) → matches_authority cs ≡ true → Authority cs
unfolding matches_authority
matches_authority_sound (a ∷ b ∷ c ∷ d ∷ cs) h = record {
  first = d;
  rest = cs;
  split = ground arith;
  no_space = no_spaces-All (d ∷ cs) (ground arith);
}
matches_authority_sound (a ∷ b ∷ c ∷ []) h = absurd (ground arith)
matches_authority_sound (a ∷ b ∷ []) h = cc
matches_authority_sound (a ∷ []) h = cc
matches_authority_sound [] h = cc

matches_authority_complete :
    (first : ℕ) (rest : List ℕ)
    → All (λ c. is_space c ≡ false) (first ∷ rest)
    → matches_authority (b':' ∷ b'/' ∷ b'/' ∷ first ∷ rest) ≡ true
unfolding matches_authority
matches_authority_complete first rest h = All-no_spaces (first ∷ rest) h

abbrev Http : ℕ → ℕ → ℕ → ℕ → Type 0
Http h t u p = SameLetters (b'h' ∷ b't' ∷ b't' ∷ b'p' ∷ []) (h ∷ t ∷ u ∷ p ∷ [])

scheme_end_sound :
    (c : ℕ) (cs : List ℕ)
    → matches_scheme_end (c ∷ cs) ≡ true
    → ((is_letter b's' c ≡ true) × (matches_authority cs ≡ true))
      ⊎ (matches_authority (c ∷ cs) ≡ true)
unfolding matches_scheme_end
scheme_end_sound c cs h = elim (Bool-cases (is_letter b's' c && matches_authority cs)) [
  | inl secure ↦ inl ((and-eq-true_iff _ _).0 secure)
  | inr plain ↦ inr (rw plain at h)
]

is_http_url_sound : (url : List ℕ) → is_http_url url ≡ true → IsHttpUrl url
unfolding is_http_url
is_http_url_sound (h ∷ t ∷ u ∷ p ∷ c ∷ cs) e = elim (scheme_end_sound c cs (ground arith)) [
  | inl (s, authority) ↦
      let a = matches_authority_sound cs authority in
      record {
        scheme = h ∷ t ∷ u ∷ p ∷ c ∷ [];
        first = a.first;
        rest = a.rest;
        split = ap (λ r. h ∷ t ∷ u ∷ p ∷ c ∷ r) a.split;
        is_scheme = inr (ground arith);
        no_space = a.no_space;
      }
  | inr authority ↦
      let a = matches_authority_sound (c ∷ cs) authority in
      record {
        scheme = h ∷ t ∷ u ∷ p ∷ [];
        first = a.first;
        rest = a.rest;
        split = ap (λ r. h ∷ t ∷ u ∷ p ∷ r) a.split;
        is_scheme = inl (ground arith);
        no_space = a.no_space;
      }
]
is_http_url_sound (h ∷ t ∷ u ∷ p ∷ []) e = absurd (ground arith)
is_http_url_sound (h ∷ t ∷ u ∷ []) e = cc
is_http_url_sound (h ∷ t ∷ []) e = cc
is_http_url_sound (h ∷ []) e = cc
is_http_url_sound [] e = cc

module _ (rest : List ℕ) where
  plain_complete :
      (scheme : List ℕ)
      → SameLetters (b'h' ∷ b't' ∷ b't' ∷ b'p' ∷ []) scheme
      → matches_authority rest ≡ true
      → matches_scheme_end rest ≡ true
      → is_http_url (scheme ++ rest) ≡ true
  unfolding is_http_url
  plain_complete (h ∷ t ∷ u ∷ p ∷ []) e a m = ground arith
  plain_complete (h ∷ t ∷ u ∷ p ∷ c ∷ cs) e a m = absurd e.1.1.1.1
  plain_complete (h ∷ t ∷ u ∷ []) e a m = absurd e.1.1.1
  plain_complete (h ∷ t ∷ []) e a m = absurd e.1.1
  plain_complete (h ∷ []) e a m = absurd e.1
  plain_complete [] e a m = absurd e

  secure_complete :
      (scheme : List ℕ)
      → SameLetters (b'h' ∷ b't' ∷ b't' ∷ b'p' ∷ b's' ∷ []) scheme
      → matches_authority rest ≡ true
      → is_http_url (scheme ++ rest) ≡ true
  unfolding is_http_url
  secure_complete (h ∷ t ∷ u ∷ p ∷ c ∷ []) e a = ground arith
  secure_complete (h ∷ t ∷ u ∷ p ∷ c ∷ d ∷ cs) e a = absurd e.1.1.1.1.1
  secure_complete (h ∷ t ∷ u ∷ p ∷ []) e a = absurd e.1.1.1.1
  secure_complete (h ∷ t ∷ u ∷ []) e a = absurd e.1.1.1
  secure_complete (h ∷ t ∷ []) e a = absurd e.1.1
  secure_complete (h ∷ []) e a = absurd e.1
  secure_complete [] e a = absurd e

is_http_url_complete : (url : List ℕ) → IsHttpUrl url → is_http_url url ≡ true
is_http_url_complete url r =
    let rest = b':' ∷ b'/' ∷ b'/' ∷ r.first ∷ r.rest in
    let a = matches_authority_complete r.first r.rest r.no_space in
    rw r.split (elim r.is_scheme [
      | inl e ↦ plain_complete rest r.scheme e a (unfold matches_scheme_end in ground (arith, a))
      | inr e ↦ secure_complete rest r.scheme e a
    ])

-- The test accepts exactly the texts `http://…` and `https://…`, in letters of either case, where
-- at least one character follows and none of those is white space.
pub is_http_url-IsHttpUrl : (url : List ℕ) → (is_http_url url ≡ true) ↔ IsHttpUrl url
is_http_url-IsHttpUrl url = (is_http_url_sound url, is_http_url_complete url)
