-- ===== src/Android/Tables.antt =====
-- Lemmas on tables: statements one after the other, ids that are unique, and rows in another order.
use Prim.Native.String.{String}
use text.Mathlib.Text.{◌==◌ as str_eq}
use text.Mathlib.TextEquality.{eq_iff}
use react_native_sync_provid.Common.{
  ℕ, zero, suc, ◌+◌, ◌≤◌, ◌≡◌, refl, sym, ap, ◌∙◌, ◌⊎◌, Bool, true, false, List, [], ◌∷◌, Option,
  none, some, length, arith, inl, inr, Bool-cases, if◌then◌else◌,
}
use react_native_sync_provid.Hooks.Runtime.{Picks, here, there}
use react_native_sync_provid.Android.Rows.{
  SyncItemEntity, Table, select, kept, each, take, has_id, count_by_id,
}

module _ {ℓ} {A : Type ℓ} where
  abbrev pub bind : Option A → (A → Option A) → Option A
  bind none g = none
  bind (some r) g = g r

  -- One statement after another, on a row that the first may delete.
  abbrev pub and_then : (A → Option A) → (A → Option A) → A → Option A
  and_then f g r = bind (f r) g

  each-kept :
      (g : A → Option A) (o : Option A) (rows : List A)
      → each g (kept o rows) ≡ kept (bind o g) (each g rows)
  each-kept g none rows = refl
  each-kept g (some r) rows = refl

  pub each-each :
      (f g : A → Option A) (rows : List A) → each g (each f rows) ≡ each (and_then f g) rows
  each-each f g [] = refl
  each-each f g (r ∷ rows) = rw (each-kept g (f r) (each f rows), each-each f g rows) refl

  pub each-same :
      (f g : A → Option A) (rows : List A) → ((r : A) → f r ≡ g r) → each f rows ≡ each g rows
  each-same f g [] h = refl
  each-same f g (r ∷ rows) h = rw (h r, each-same f g rows h) refl

  pub each-some : (rows : List A) → each some rows ≡ rows
  each-some [] = refl
  each-some (r ∷ rows) = ap (λ t. r ∷ t) (each-some rows)

-- `xs` has the entries of `ys`, in any order.
pub data Arranges {A : Type 0} : List A → List A → Type 0 where
  done : Arranges [] []
  next : {x : A} {xs ys rest : List A} → Picks x ys rest → Arranges xs rest → Arranges (x ∷ xs) ys

pub Arranges-same : {A : Type 0} (xs : List A) → Arranges xs xs
Arranges-same [] = done
Arranges-same (x ∷ xs) = next here (Arranges-same xs)

pub str_eq_sym : (a b : String) → str_eq a b ≡ str_eq b a
str_eq_sym a b = elim (Bool-cases (str_eq a b)) [
  | inl p ↦ p ∙ sym (flip a b p)
  | inr p ↦ elim (Bool-cases (str_eq b a)) [ inl q ↦ flip b a q ∙ sym q | inr q ↦ p ∙ sym q ]
]
  where
    flip : (s t : String) → str_eq s t ≡ true → str_eq t s ≡ true
    flip s t p = (eq_iff t s).1 (sym ((eq_iff s t).0 p))

-- The primary key: no two rows have the same id.
abbrev pub Distinct : Table → Type 0
Distinct rows = (id : String) → count_by_id id rows ≤ 1

abbrev pub tick : Bool → ℕ
tick b = if b then 1 else 0

pub count-cons :
    (id : String) (r : SyncItemEntity) (rows : Table)
    → count_by_id id (r ∷ rows) ≡ tick (has_id id r) + count_by_id id rows
count-cons id r rows = go (has_id id r)
  where
    go :
        (b : Bool)
        → length (if b then r ∷ select (has_id id) rows else select (has_id id) rows)
          ≡ tick b + count_by_id id rows
    go true = omega arith
    go false = omega arith

-- The row with an id.
abbrev pub pick : String → Table → Option SyncItemEntity
pick id [] = none
pick id (r ∷ rows) = if has_id id r then some r else pick id rows

pub pick_is :
    (id : String) (r : SyncItemEntity) (rows : Table)
    → has_id id r ≡ true
    → pick id (r ∷ rows) ≡ some r
pick_is id r rows is = ap (λ b. if b then some r else pick id rows) is

pub pick_other :
    (id : String) (r : SyncItemEntity) (rows : Table)
    → has_id id r ≡ false
    → pick id (r ∷ rows) ≡ pick id rows
pick_other id r rows other = ap (λ b. if b then some r else pick id rows) other

pub count_is :
    (id : String) (r : SyncItemEntity) (rows : Table)
    → has_id id r ≡ true
    → count_by_id id (r ∷ rows) ≡ suc (count_by_id id rows)
count_is id r rows is =
    let one : ◌≡◌ {A = ℕ} (tick (has_id id r)) 1 = ap tick is in
    omega (arith, one, count-cons id r rows)

pub count_other :
    (id : String) (r : SyncItemEntity) (rows : Table)
    → has_id id r ≡ false
    → count_by_id id (r ∷ rows) ≡ count_by_id id rows
count_other id r rows other =
    let zero_ticks : ◌≡◌ {A = ℕ} (tick (has_id id r)) 0 = ap tick other in
    omega (arith, zero_ticks, count-cons id r rows)

pub count-pick : (id : String) (rows : Table) → count_by_id id rows ≡ 0 → pick id rows ≡ none
count-pick id [] h = refl
count-pick id (r ∷ rows) h = elim (Bool-cases (has_id id r)) [
  | inl is ↦ absurd (omega (arith, h, count_is id r rows is))
  | inr other ↦
      pick_other id r rows other
      ∙ count-pick id rows (omega (arith, h, count_other id r rows other))
]

pub Distinct-tail : (r : SyncItemEntity) (rows : Table) → Distinct (r ∷ rows) → Distinct rows
Distinct-tail r rows h id = omega (arith, h id, count-cons id r rows)

pub Distinct-head :
    (id : String) (r : SyncItemEntity) (rows : Table)
    → Distinct (r ∷ rows)
    → has_id id r ≡ true
    → pick id rows ≡ none
Distinct-head id r rows h is = count-pick id rows (omega (arith, h id, count_is id r rows is))

-- The rows of `cs` act on the rows of the table that have their id, one after the other.
module _ (fate : SyncItemEntity → SyncItemEntity → Option SyncItemEntity) where
  abbrev pub settle : SyncItemEntity → SyncItemEntity → Option SyncItemEntity
  settle c t = if has_id c.id t then fate c t else some t

  abbrev pub settle_all : Table → SyncItemEntity → Option SyncItemEntity
  settle_all [] t = some t
  settle_all (c ∷ cs) t = bind (settle c t) (settle_all cs)

  abbrev pub chosen : Option SyncItemEntity → SyncItemEntity → Option SyncItemEntity
  chosen none t = some t
  chosen (some c) t = fate c t

  settle_is : (c t : SyncItemEntity) → has_id t.id c ≡ true → settle c t ≡ fate c t
  settle_is c t is = ap (λ b. if b then fate c t else some t) (str_eq_sym t.id c.id ∙ is)

  settle_other : (c t : SyncItemEntity) → has_id t.id c ≡ false → settle c t ≡ some t
  settle_other c t other = ap (λ b. if b then fate c t else some t) (str_eq_sym t.id c.id ∙ other)

  settle_all-none :
      (cs : Table) (t : SyncItemEntity) → pick t.id cs ≡ none → settle_all cs t ≡ some t
  settle_all-none [] t h = refl
  settle_all-none (c ∷ cs) t h = elim (Bool-cases (has_id t.id c)) [
    | inl is ↦ absurd (some_none (sym (pick_is t.id c cs is) ∙ h))
    | inr other ↦
        ap (λ o. bind o (settle_all cs)) (settle_other c t other)
        ∙ settle_all-none cs t (sym (pick_other t.id c cs other) ∙ h)
  ]
    where
      some_none : some c ≡ none → ⊥
      some_none e = ground (arith, e)

  pub settle_all-pick :
      ((c t u : SyncItemEntity) → fate c t ≡ some u → u.id ≡ t.id)
      → (cs : Table) (t : SyncItemEntity) → Distinct cs
      → settle_all cs t ≡ chosen (pick t.id cs) t
  settle_all-pick keeps [] t h = refl
  settle_all-pick keeps (c ∷ cs) t h = elim (Bool-cases (has_id t.id c)) [
    | inl is ↦
        ap (λ o. bind o (settle_all cs)) (settle_is c t is)
        ∙ rest (fate c t) refl (Distinct-head t.id c cs h is)
        ∙ sym (ap (λ o. chosen o t) (pick_is t.id c cs is))
    | inr other ↦
        ap (λ o. bind o (settle_all cs)) (settle_other c t other)
        ∙ settle_all-pick keeps cs t (Distinct-tail c cs h)
        ∙ sym (ap (λ o. chosen o t) (pick_other t.id c cs other))
  ]
    where
      rest :
          (o : Option SyncItemEntity)
          → fate c t ≡ o
          → pick t.id cs ≡ none
          → bind o (settle_all cs) ≡ o
      rest none e alone = refl
      rest (some u) e alone = settle_all-none cs u (ap (λ id. pick id cs) (keeps c t u e) ∙ alone)

-- In a table without equal ids, the order of the rows does not matter to a look-up.
count-Picks :
    (id : String) {r : SyncItemEntity} {rows rest : Table}
    → Picks r rows rest
    → count_by_id id rows ≡ tick (has_id id r) + count_by_id id rest
count-Picks id {r} {rest = rest} here = count-cons id r rest
count-Picks id {r} (there {v} {ws} {rest} p) =
    omega (arith, count-Picks id p, count-cons id v ws, count-cons id v rest)

pub count-Arranges :
    (id : String) {xs ys : Table} → Arranges xs ys → count_by_id id xs ≡ count_by_id id ys
count-Arranges id done = refl
count-Arranges id (next {x} {xs} p a) =
    omega (arith, count-cons id x xs, count-Picks id p, count-Arranges id a)

pick-Picks :
    (id : String) {r : SyncItemEntity} {rows rest : Table}
    → Picks r rows rest
    → Distinct rows
    → pick id rows ≡ pick id (r ∷ rest)
pick-Picks id here h = refl
pick-Picks id {r} (there {v} {ws} {rest} p) h = elim (Bool-cases (has_id id r)) [
  | inl is ↦
      pick_other id v ws (unlike is (Bool-cases (has_id id v)))
      ∙ pick-Picks id p (Distinct-tail v ws h)
      ∙ pick_is id r rest is
      ∙ sym (pick_is id r (v ∷ rest) is)
  | inr other ↦
      ap (λ o. if has_id id v then some v else o)
        (pick-Picks id p (Distinct-tail v ws h) ∙ pick_other id r rest other)
      ∙ sym (pick_other id r (v ∷ rest) other)
]
  where
    unlike : has_id id r ≡ true → (has_id id v ≡ true) ⊎ (has_id id v ≡ false) → has_id id v ≡ false
    unlike is (inr other) = other
    unlike is (inl both) =
        let one : ◌≡◌ {A = ℕ} (tick (has_id id r)) 1 = ap tick is in
        absurd (omega (arith, one, count-Picks id p, count_is id v ws both, h id))

pub pick-Arranges :
    (id : String) {xs ys : Table} → Arranges xs ys → Distinct ys → pick id xs ≡ pick id ys
pick-Arranges id done h = refl
pick-Arranges id (next {x} {xs} {ys} {rest} p a) h =
    ap (λ o. if has_id id x then some x else o)
      (pick-Arranges id a (λ i. omega (arith, h i, count-Picks i p)))
    ∙ sym (pick-Picks id p h)

-- Selected and limited rows are rows of the table.
pub count-select :
    (id : String) (p : SyncItemEntity → Bool) (rows : Table)
    → count_by_id id (select p rows) ≤ count_by_id id rows
count-select id p [] = omega arith
count-select id p (r ∷ rows) = go (p r) (count-select id p rows)
  where
    go :
        (b : Bool)
        → count_by_id id (select p rows) ≤ count_by_id id rows
        → count_by_id id (if b then r ∷ select p rows else select p rows)
          ≤ count_by_id id (r ∷ rows)
    go true less = omega (arith, count-cons id r rows, count-cons id r (select p rows), less)
    go false less = omega (arith, count-cons id r rows, less)

pub count-take :
    (id : String) (n : ℕ) (rows : Table) → count_by_id id (take n rows) ≤ count_by_id id rows
count-take id zero rows = omega arith
count-take id (suc n) [] = omega arith
count-take id (suc n) (r ∷ rows) =
    omega (arith, count-cons id r rows, count-cons id r (take n rows), count-take id n rows)
