-- ===== src/Android/Claim.antt =====
-- SyncItemDao.claimPending: the statements of one claim, taken together, and what they claim.
use Prim.Native.String.{String}
use text.Mathlib.Text.{◌==◌ as str_eq}
use react_native_sync_provid.Common.{
  ℕ, zero, suc, ◌-◌, ◌≡◌, refl, sym, ap, ◌∙◌, Bool, true, false, ◌||◌, List, [], ◌∷◌, ◌++◌, map,
  Option, none, some, arith, if◌then◌else◌,
}
use react_native_sync_provid.Android.Sorting.{order_by-Arranges}
use react_native_sync_provid.Android.Rows.{
  SyncItemEntity, in_flight, Table, select, each, has_id, includes_id, mark_in_flight, put_first,
  fill_chunks, chunked, mark_chunks, claimable, max_ids_per_statement, select_claimable, order_by,
}
use react_native_sync_provid.Android.Tables.{
  each-each, each-same, each-some, Arranges, Distinct, pick, count-select, count-take,
  count-Arranges,
}

abbrev pub joined {ℓ} : {A : Type ℓ} → List (List A) → List A
joined [] = []
joined (c ∷ chunks) = c ++ joined chunks

joined-put_first :
    {A : Type 0} (x : A) (chunks : List (List A)) → joined (put_first x chunks) ≡ x ∷ joined chunks
joined-put_first x [] = refl
joined-put_first x (c ∷ chunks) = refl

joined-fill_chunks :
    {A : Type 0} (size room : ℕ) (xs : List A) → joined (fill_chunks size room xs) ≡ xs
joined-fill_chunks size room [] = refl
joined-fill_chunks size zero (x ∷ xs) =
    joined-put_first x (fill_chunks size (size - 1) xs)
    ∙ ap (λ t. x ∷ t) (joined-fill_chunks size (size - 1) xs)
joined-fill_chunks size (suc room) (x ∷ xs) =
    joined-put_first x (fill_chunks size room xs)
    ∙ ap (λ t. x ∷ t) (joined-fill_chunks size room xs)

-- A row that a claim marks.
abbrev pub marked : Bool → SyncItemEntity → SyncItemEntity
marked b r = if b then record r { status = in_flight } else r

includes_id-append :
    (xs ys : List String) (id : String)
    → includes_id (xs ++ ys) id ≡ includes_id xs id || includes_id ys id
includes_id-append [] ys id = refl
includes_id-append (x ∷ xs) ys id = go (str_eq x id) (includes_id-append xs ys id)
  where
    go :
        (b : Bool)
        → includes_id (xs ++ ys) id ≡ includes_id xs id || includes_id ys id
        → (b || includes_id (xs ++ ys) id) ≡ (b || includes_id xs id) || includes_id ys id
    go true e = refl
    go false e = e

marked-marked : (a b : Bool) (r : SyncItemEntity) → marked b (marked a r) ≡ marked (a || b) r
marked-marked true true r = refl
marked-marked true false r = refl
marked-marked false b r = refl

pub marked-id : (b : Bool) (r : SyncItemEntity) → (marked b r).id ≡ r.id
marked-id true r = refl
marked-id false r = refl

mark_in_flight-append :
    (xs ys : List String) (table : Table)
    → mark_in_flight ys (mark_in_flight xs table) ≡ mark_in_flight (xs ++ ys) table
mark_in_flight-append xs ys table =
    each-each (λ r. some (marked (includes_id xs r.id) r))
      (λ r. some (marked (includes_id ys r.id) r)) table
    ∙ each-same _ _ table (λ r. ap some (
        ap (λ id. marked (includes_id ys id) (marked (includes_id xs r.id) r))
          (marked-id (includes_id xs r.id) r)
        ∙ marked-marked (includes_id xs r.id) (includes_id ys r.id) r
        ∙ ap (λ b. marked b r) (sym (includes_id-append xs ys r.id))))

mark_chunks-joined :
    (chunks : List (List String)) (table : Table)
    → mark_chunks chunks table ≡ mark_in_flight (joined chunks) table
mark_chunks-joined [] table = sym (each-some table)
mark_chunks-joined (c ∷ chunks) table =
    mark_chunks-joined chunks (mark_in_flight c table)
    ∙ mark_in_flight-append c (joined chunks) table

abbrev pub is_some : {A : Type 0} → Option A → Bool
is_some none = false
is_some (some a) = true

includes_id-pick :
    (id : String) (rows : Table) → includes_id (map (λ r. r.id) rows) id ≡ is_some (pick id rows)
includes_id-pick id [] = refl
includes_id-pick id (r ∷ rows) = go (has_id id r) (includes_id-pick id rows)
  where
    go :
        (b : Bool)
        → includes_id (map (λ r. r.id) rows) id ≡ is_some (pick id rows)
        → (b || includes_id (map (λ r. r.id) rows) id)
          ≡ is_some (if b then some r else pick id rows)
    go true e = refl
    go false e = e

-- A claim marks each row whose id is that of a claimed row, in chunks or not.
pub mark_chunks-each :
    (rows table : Table)
    → mark_chunks (chunked max_ids_per_statement (map (λ r. r.id) rows)) table
      ≡ each (λ t. some (marked (is_some (pick t.id rows)) t)) table
mark_chunks-each rows table =
    mark_chunks-joined (chunked max_ids_per_statement (map (λ r. r.id) rows)) table
    ∙ ap (λ ids. mark_in_flight ids table)
        (joined-fill_chunks max_ids_per_statement max_ids_per_statement (map (λ r. r.id) rows))
    ∙ each-same _ _ table (λ t. ap (λ b. some (marked b t)) (includes_id-pick t.id rows))

module _ (scan : Table → Table) (orders : (rows : Table) → Arranges (scan rows) rows) where
  pub select_claimable-Distinct :
      (now limit : ℕ) (table : Table)
      → Distinct table
      → Distinct (select_claimable scan now limit table)
  select_claimable-Distinct now limit table h id =
      let eligible = select (claimable now) table in
      omega (
        arith,
        h id,
        count-select id (claimable now) table,
        count-Arranges id (order_by-Arranges (orders eligible)),
        count-take id limit (order_by (scan eligible)),
      )
