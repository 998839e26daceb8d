-- ===== src/Android/Refinement.antt =====
-- SyncDispatcher.runCycle against an abstract cycle, which says of each row what becomes of it.
use react_native_sync_provid.Common.{
  ◌≡◌, refl, sym, ap, ◌∙◌, Bool, true, false, ◌&&◌, [], ◌∷◌, Option, none, some, arith, inl, inr,
  Bool-cases, if◌then◌else◌,
}
use react_native_sync_provid.Types.Sync.{SyncOptions}
use react_native_sync_provid.Android.Rows.{
  SyncItemEntity, pending, is_in_flight, Table, select, each, select_claimable, reset_in_flight,
}
use react_native_sync_provid.Android.Storage.{SyncQueueStorage}
use react_native_sync_provid.Android.Dispatch.{CredentialPolicy, is_persisted}
use react_native_sync_provid.Android.Cycle.{
  give_back, Course, undisturbed, claim_throws, record_throws, cancelled, Conditions, is_rejected,
  batch_size_of, dispatch, dispatch_each, dispatch_concurrently, dispatch_claimed, after_claim,
  run_cycle,
}
use react_native_sync_provid.Android.Tables.{
  bind, each-each, each-same, each-some, Arranges, Distinct, Distinct-tail, count-cons, pick,
  settle, settle_all, settle_all-pick, chosen, pick-Arranges, count-Arranges, count-select,
}
use react_native_sync_provid.Android.Claim.{
  marked, is_some, marked-id, mark_chunks-each, select_claimable-Distinct,
}
use react_native_sync_provid.Android.Fate.{fate, fate-id, dispatch_item-each, dispatch_item-outcome}

module _ (scan : Table → Table) (options : SyncOptions) (credentials : CredentialPolicy)
    (conditions : Conditions) where
  -- What an attempt on `c` makes of the row `t`.
  abbrev pub fate_of : SyncItemEntity → SyncItemEntity → Option SyncItemEntity
  fate_of c t = fate options credentials (conditions.exchange c) c t

  -- The server rejects the restored credential with which `c` is sent.
  abbrev pub rejects : SyncItemEntity → Bool
  rejects c = is_rejected (dispatch scan options credentials conditions c []).outcome

  -- With persisted headers, a rejection of the first row keeps the others from being sent.
  abbrev pub gated : Table → Table
  gated [] = []
  gated (r ∷ rs) = if is_persisted credentials && rejects r then r ∷ [] else r ∷ rs

  abbrev pub is_gated : Table → Bool
  is_gated [] = false
  is_gated (r ∷ rs) = is_persisted credentials && rejects r

  -- The rows that are sent, of those claimed, and whether the others are given back.
  abbrev pub attempted : Course → Table → Table
  attempted undisturbed claimed = gated claimed
  attempted (record_throws code) claimed = gated claimed
  attempted (cancelled starts) claimed = gated (select starts claimed)
  attempted (claim_throws code) claimed = []

  abbrev pub releases : Course → Table → Bool
  releases undisturbed claimed = is_gated claimed && conditions.reset_works
  releases (record_throws code) claimed = is_gated claimed && conditions.reset_works
  releases (cancelled starts) claimed = conditions.reset_works
  releases (claim_throws code) claimed = false

  abbrev pub claims : Course → Table → Table
  claims (claim_throws code) claimed = []
  claims _ claimed = claimed

  abbrev pub released : Bool → SyncItemEntity → SyncItemEntity
  released b t = if b && is_in_flight t.status then record t { status = pending } else t

  -- The abstract cycle: a claimed row is marked; if it is sent, its fate befalls it; and where the
  -- claimed rows are given back, so is every row that is in flight.
  abbrev pub row_after : Course → Table → SyncItemEntity → Option SyncItemEntity
  row_after course claimed t =
      bind
        (chosen fate_of (pick t.id (attempted course claimed))
          (marked (is_some (pick t.id (claims course claimed))) t))
        (λ u. some (released (releases course claimed) u))

  -- The rows that a cycle claims.
  abbrev pub claimed_by : SyncQueueStorage → Table
  claimed_by s = select_claimable scan conditions.started_at (batch_size_of options) s.items

  dispatch_each-each :
      (cs items : Table)
      → (dispatch_each scan options credentials conditions cs items).0
        ≡ each (settle_all fate_of cs) items
  dispatch_each-each [] items = sym (each-some items)
  dispatch_each-each (c ∷ cs) items =
      dispatch_each-each cs (dispatch scan options credentials conditions c items).items
      ∙ ap (each (settle_all fate_of cs))
          (dispatch_item-each options credentials (conditions.exchange c) c items)
      ∙ each-each (settle fate_of c) (settle_all fate_of cs) items

  module _ (finishes : (rows : Table) → Arranges (conditions.finishing rows) rows) where
    abbrev befalls : Table → SyncItemEntity → Option SyncItemEntity
    befalls cs t = chosen fate_of (pick t.id cs) t

    settle_all-befalls :
        (cs : Table) (t : SyncItemEntity) → Distinct cs → settle_all fate_of cs t ≡ befalls cs t
    settle_all-befalls cs t h =
        settle_all-pick fate_of (λ c u v. fate-id options credentials (conditions.exchange c) c u v)
          cs t h

    dispatch_concurrently-each :
        (cs items : Table)
        → Distinct cs
        → (dispatch_concurrently scan options credentials conditions cs items).items
          ≡ each (befalls cs) items
    dispatch_concurrently-each cs items h =
        let ended = conditions.finishing cs in
        let distinct : Distinct ended =
          λ id. omega (arith, h id, count-Arranges id (finishes cs)) in
        dispatch_each-each ended items
        ∙ each-same _ _ items (λ t.
          settle_all-befalls ended t distinct
          ∙ ap (λ o. chosen fate_of o t) (pick-Arranges t.id (finishes cs) h))

    bind-some : (o : Option SyncItemEntity) → o ≡ bind o (λ u. some u)
    bind-some none = refl
    bind-some (some u) = refl

    rejects-dispatch :
        (r : SyncItemEntity) (items : Table)
        → is_rejected (dispatch scan options credentials conditions r items).outcome ≡ rejects r
    rejects-dispatch r items =
        ap is_rejected
          (dispatch_item-outcome options credentials (conditions.exchange r) r items [])

    give_back-each :
        (items : Table)
        → give_back scan options credentials conditions items
          ≡ each (λ u. some (released conditions.reset_works u)) items
    give_back-each items = go conditions.reset_works
      where
        go :
            (w : Bool)
            → (if w then reset_in_flight items else items) ≡ each (λ u. some (released w u)) items
        go true = refl
        go false = sym (each-some items)

    -- The first row, and then others.
    first-each :
        (r : SyncItemEntity) (rs items : Table)
        → Distinct (r ∷ rs)
        → each (befalls rs) (dispatch scan options credentials conditions r items).items
          ≡ each (befalls (r ∷ rs)) items
    first-each r rs items h =
        ap (each (befalls rs))
          (dispatch_item-each options credentials (conditions.exchange r) r items)
        ∙ each-each (settle fate_of r) (befalls rs) items
        ∙ each-same _ _ items (λ t. go (settle fate_of r t) ∙ settle_all-befalls (r ∷ rs) t h)
      where
        go : (o : Option SyncItemEntity) → bind o (befalls rs) ≡ bind o (settle_all fate_of rs)
        go none = refl
        go (some u) = sym (settle_all-befalls rs u (Distinct-tail r rs h))

    Distinct-one : (r : SyncItemEntity) (rs : Table) → Distinct (r ∷ rs) → Distinct (r ∷ [])
    Distinct-one r rs h id = omega (arith, h id, count-cons id r rs, count-cons id r [])

    all_or_one :
        (r : SyncItemEntity) (rs items : Table)
        → Distinct (r ∷ rs)
        → (dispatch_claimed scan options credentials conditions (r ∷ rs) items).items
          ≡ each
              (λ t.
                bind
                  (befalls (gated (r ∷ rs)) t)
                  (λ u. some (released (is_gated (r ∷ rs) && conditions.reset_works) u)))
              items
    all_or_one r rs items h =
        let first = (dispatch scan options credentials conditions r items).items in
        elim (Bool-cases (is_persisted credentials)) [
          | inr p ↦ rw p (
              dispatch_concurrently-each (r ∷ rs) items h
              ∙ each-same _ _ items (λ t. bind-some (befalls (r ∷ rs) t)))
          | inl p ↦ elim (Bool-cases (rejects r)) [
            | inl g ↦
                rw (p, rejects-dispatch r items, g)
                  (give_back-each first
                    ∙ ap (each (λ u. some (released conditions.reset_works u)))
                        (sym (each-some first) ∙ first-each r [] items (Distinct-one r rs h))
                    ∙ each-each (befalls (r ∷ [])) (λ u. some (released conditions.reset_works u))
                        items)
            | inr g ↦
                rw (p, rejects-dispatch r items, g)
                  (dispatch_concurrently-each rs first (Distinct-tail r rs h)
                    ∙ first-each r rs items h
                    ∙ each-same _ _ items (λ t. bind-some (befalls (r ∷ rs) t)))
          ]
        ]

    -- A batch on the table: each row that is sent meets its fate.
    dispatch_claimed-each :
        (claimed items : Table)
        → Distinct claimed
        → (dispatch_claimed scan options credentials conditions claimed items).items
          ≡ each
              (λ t.
                bind
                  (befalls (gated claimed) t)
                  (λ u. some (released (is_gated claimed && conditions.reset_works) u)))
              items
    dispatch_claimed-each [] items h = sym (each-some items)
    dispatch_claimed-each (r ∷ rs) items h = all_or_one r rs items h

    either_way :
        (b : Bool) (x y : SyncQueueStorage)
        → x.items ≡ y.items
        → (if b then x else y).items ≡ y.items
    either_way true x y e = e
    either_way false x y e = refl

    -- Marking, then what follows.
    marked-each :
        (claimed sent items : Table) (g : Bool)
        → each
            (λ u. bind (befalls sent u) (λ v. some (released g v)))
            (each (λ t. some (marked (is_some (pick t.id claimed)) t)) items)
          ≡ each
              (λ t.
                bind
                  (chosen fate_of (pick t.id sent) (marked (is_some (pick t.id claimed)) t))
                  (λ v. some (released g v)))
              items
    marked-each claimed sent items g =
        each-each (λ t. some (marked (is_some (pick t.id claimed)) t))
          (λ u. bind (befalls sent u) (λ v. some (released g v))) items
        ∙ each-same _ _ items (λ t.
          let b = is_some (pick t.id claimed) in
          ap (λ id. bind (chosen fate_of (pick id sent) (marked b t)) (λ v. some (released g v)))
            (marked-id b t))

    released_twice :
        (g w : Bool) (u : SyncItemEntity) → released w (released (g && w) u) ≡ released w u
    released_twice false w u = refl
    released_twice true false u = refl
    released_twice true true u = go (is_in_flight u.status) refl
      where
        go :
            (b : Bool)
            → is_in_flight u.status ≡ b
            → released true (if b then record u { status = pending } else u)
              ≡ (if b then record u { status = pending } else u)
        go true e = refl
        go false e = rw e refl

    reset-each :
        (sent items : Table) (g : Bool)
        → give_back scan options credentials conditions (
            each
              (λ u. bind (befalls sent u) (λ v. some (released (g && conditions.reset_works) v)))
              items)
          ≡ each (λ u. bind (befalls sent u) (λ v. some (released conditions.reset_works v))) items
    reset-each sent items g =
        give_back-each _
        ∙ each-each
            (λ u. bind (befalls sent u) (λ v. some (released (g && conditions.reset_works) v)))
            (λ v. some (released conditions.reset_works v)) items
        ∙ each-same _ _ items (λ u. go (befalls sent u))
      where
        go :
            (o : Option SyncItemEntity)
            → bind
                (bind o (λ v. some (released (g && conditions.reset_works) v)))
                (λ v. some (released conditions.reset_works v))
              ≡ bind o (λ v. some (released conditions.reset_works v))
        go none = refl
        go (some u) = ap some (released_twice g conditions.reset_works u)

    module _ (s : SyncQueueStorage) (claimed marked_items : Table) (h : Distinct claimed)
        (e : marked_items ≡ each (λ t. some (marked (is_some (pick t.id claimed)) t)) s.items) where
      completed :
          (dispatch_claimed scan options credentials conditions claimed marked_items).items
          ≡ each (row_after undisturbed claimed) s.items
      completed =
          dispatch_claimed-each claimed marked_items h
          ∙ ap
              (each (λ u.
                bind (befalls (gated claimed) u)
                  (λ v. some (released (is_gated claimed && conditions.reset_works) v))))
              e
          ∙ marked-each claimed (gated claimed) s.items (is_gated claimed && conditions.reset_works)

      after_claim-each :
          (course : Course)
          → (after_claim scan options credentials conditions s course
              (marked_items, claimed)).storage.items
            ≡ each (row_after course claimed) s.items
      after_claim-each undisturbed =
          either_way
            (dispatch_claimed scan options credentials conditions claimed marked_items).completes _
            _ refl
          ∙ completed
      after_claim-each (record_throws code) = completed
      after_claim-each (cancelled starts) =
          let sent = select starts claimed in
          let distinct : Distinct sent =
            λ id. omega (arith, h id, count-select id starts claimed) in
          ap (give_back scan options credentials conditions)
            (dispatch_claimed-each sent marked_items distinct)
          ∙ reset-each (gated sent) marked_items (is_gated sent)
          ∙ ap
              (each (λ u.
                bind (befalls (gated sent) u) (λ v. some (released conditions.reset_works v))))
              e
          ∙ marked-each claimed (gated sent) s.items conditions.reset_works
      after_claim-each (claim_throws code) = sym (each-some s.items)

    -- A flush cycle on a table without equal ids does to each row what the abstract cycle says,
    -- whether it is undisturbed, its claim or the write of its result throws, or it is cancelled
    -- while some requests are out; in whatever order the requests end, and with writes and resets
    -- that throw.
    pub run_cycle-row_after :
        ((rows : Table) → Arranges (scan rows) rows)
        → (s : SyncQueueStorage) → Distinct s.items
        → (run_cycle scan options credentials conditions s).storage.items
          ≡ each (row_after conditions.course (claimed_by s)) s.items
    unfolding run_cycle
    run_cycle-row_after orders s h =
        after_claim-each s (claimed_by s) _
          (select_claimable-Distinct scan orders conditions.started_at (batch_size_of options)
            s.items h)
          (mark_chunks-each (claimed_by s) s.items) conditions.course
