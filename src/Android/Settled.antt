-- ===== src/Android/Settled.antt =====
-- What a flush cycle leaves in the table: no row in flight, and no row over its budget of attempts.
use Prim.Native.String.{String}
use react_native_sync_provid.Common.{
  ◌≡◌, refl, sym, ap, ◌∙◌, Bool, true, false, ◌&&◌, List, [], ◌∷◌, Option, none, some, arith,
  if◌then◌else◌, All,
}
use react_native_sync_provid.Types.Sync.{SyncOptions}
use react_native_sync_provid.Android.Verdict.{Verdict, deliver, wait, give_up, verdict}
use react_native_sync_provid.Android.Rows.{SyncItemEntity, pending, is_in_flight, Table, kept, each}
use react_native_sync_provid.Android.Storage.{SyncQueueStorage}
use react_native_sync_provid.Android.Dispatch.{CredentialPolicy, is_persisted}
use react_native_sync_provid.Android.Cycle.{
  Course, undisturbed, claim_throws, record_throws, cancelled, Conditions, run_cycle,
}
use react_native_sync_provid.Android.Tables.{bind, Arranges, Distinct, pick, chosen}
use react_native_sync_provid.Android.Claim.{marked, is_some}
use react_native_sync_provid.Android.Fate.{judged}
use react_native_sync_provid.Android.Refinement.{
  fate_of, rejects, gated, is_gated, attempted, releases, claims, released, row_after, claimed_by,
  run_cycle-row_after,
}

-- What a row that is kept satisfies.
abbrev pub Kept : (SyncItemEntity → Type 0) → Option SyncItemEntity → Type 0
Kept P none = Unit
Kept P (some r) = P r

pub each-All :
    (P : SyncItemEntity → Type 0) (f : SyncItemEntity → Option SyncItemEntity) (rows : Table)
    → All (λ r. Kept P (f r)) rows
    → All P (each f rows)
each-All P f [] h = tt
each-All P f (r ∷ rows) h = go (f r) h.0 (each-All P f rows h.1)
  where
    go : (o : Option SyncItemEntity) → Kept P o → All P (each f rows) → All P (kept o (each f rows))
    go none k rest = rest
    go (some s) k rest = (k, rest)

pub All-each :
    {A : Type 0} (P Q : A → Type 0) (rows : List A)
    → ((r : A) → P r → Q r)
    → All P rows
    → All Q rows
All-each P Q [] h hs = tt
All-each P Q (r ∷ rows) h hs = (h r hs.0, All-each P Q rows h hs.1)

abbrev pub NotInFlight : SyncItemEntity → Type 0
NotInFlight r = is_in_flight r.status ≡ false

module _ (scan : Table → Table) (options : SyncOptions) (credentials : CredentialPolicy)
    (conditions : Conditions) where
  -- Where some claimed rows are not sent, the claimed rows are given back.
  gated-releases :
      (claimed : Table) (id : String)
      → pick id (gated scan options credentials conditions claimed) ≡ none
      → is_some (pick id claimed) ≡ true
      → is_gated scan options credentials conditions claimed ≡ true
  gated-releases [] id unsent is = is
  gated-releases (r ∷ rs) id unsent is =
      go (is_persisted credentials && rejects scan options credentials conditions r) unsent
    where
      go : (g : Bool) → pick id (if g then r ∷ [] else r ∷ rs) ≡ none → g ≡ true
      go true e = refl
      go false e = ap is_some (sym e) ∙ is

  unsent-releases :
      (course : Course) (claimed : Table) (id : String)
      → pick id (attempted scan options credentials conditions course claimed) ≡ none
      → is_some (pick id (claims scan options credentials conditions course claimed)) ≡ true
      → conditions.reset_works ≡ true
      → releases scan options credentials conditions course claimed ≡ true
  unsent-releases undisturbed claimed id unsent is works =
      rw (gated-releases claimed id unsent is) works
  unsent-releases (record_throws code) claimed id unsent is works =
      rw (gated-releases claimed id unsent is) works
  unsent-releases (cancelled starts) claimed id unsent is works = works
  unsent-releases (claim_throws code) claimed id unsent is works = absurd (ground (arith, is))

  abbrev pub given : Bool → SyncItemEntity → SyncItemEntity
  given g u = released scan options credentials conditions g u

  abbrev pub gives : Course → Table → Bool
  gives course claimed = releases scan options credentials conditions course claimed

  given-NotInFlight : (g : Bool) (u : SyncItemEntity) → NotInFlight u → NotInFlight (given g u)
  given-NotInFlight g u h = go (g && is_in_flight u.status)
    where
      go : (b : Bool) → is_in_flight (if b then record u { status = pending } else u).status ≡ false
      go true = refl
      go false = h

  given_back : (u : SyncItemEntity) → NotInFlight (given true u)
  given_back u = go (is_in_flight u.status) refl
    where
      go :
          (b : Bool)
          → is_in_flight u.status ≡ b
          → is_in_flight (if b then record u { status = pending } else u).status ≡ false
      go true e = refl
      go false e = e

  pub Kept-given :
      (P : SyncItemEntity → Type 0) (g : Bool) (o : Option SyncItemEntity)
      → ((u : SyncItemEntity) → P u → P (given g u))
      → Kept P o
      → Kept P (bind o (λ u. some (given g u)))
  Kept-given P g none keeps h = tt
  Kept-given P g (some u) keeps h = keeps u h

  judged-NotInFlight :
      (c t : SyncItemEntity) (v : Verdict)
      → Kept NotInFlight (judged options credentials (conditions.exchange c) c v t)
  judged-NotInFlight c t deliver = tt
  judged-NotInFlight c t (wait attempts code until) = refl
  judged-NotInFlight c t (give_up attempts code) = refl

  fate-NotInFlight :
      (c t : SyncItemEntity)
      → (conditions.exchange c).write_throws ≡ none
      → Kept NotInFlight (fate_of scan options credentials conditions c t)
  fate-NotInFlight c t works =
      rw works (judged-NotInFlight c t (verdict options credentials (conditions.exchange c) c))

  row_after-NotInFlight :
      ((c : SyncItemEntity) → (conditions.exchange c).write_throws ≡ none)
      → conditions.reset_works ≡ true
      → (course : Course) (claimed : Table) (t : SyncItemEntity) → NotInFlight t
      → Kept NotInFlight (row_after scan options credentials conditions course claimed t)
  row_after-NotInFlight works resets course claimed t idle =
      go (pick t.id (attempted scan options credentials conditions course claimed)) refl
    where
      unsent :
          (b : Bool)
          → (b ≡ true → gives course claimed ≡ true)
          → NotInFlight (given (gives course claimed) (marked b t))
      unsent true back = rw (back refl) (given_back (marked true t))
      unsent false back = given-NotInFlight (gives course claimed) t idle

      go :
          (o : Option SyncItemEntity)
          → pick t.id (attempted scan options credentials conditions course claimed) ≡ o
          → Kept NotInFlight (
              bind
                (chosen (fate_of scan options credentials conditions) o (
                  marked
                    (is_some
                      (pick t.id (claims scan options credentials conditions course claimed)))
                    t))
                (λ u. some (given (gives course claimed) u)))
      go (some c) e =
          Kept-given NotInFlight (gives course claimed) _ (given-NotInFlight (gives course claimed))
            (fate-NotInFlight c _ (works c))
      go none e =
          unsent (is_some (pick t.id (claims scan options credentials conditions course claimed)))
            (λ is. unsent-releases course claimed t.id e is resets)

  -- However a flush cycle goes, undisturbed, with a claim or a result that cannot be written, or
  -- cancelled with some requests out, it leaves no row in flight: where none was in flight before, no
  -- two rows had one id, no write of an attempt and no reset throws, and whatever the server answers.
  pub run_cycle-NotInFlight :
      ((rows : Table) → Arranges (scan rows) rows)
      → ((rows : Table) → Arranges (conditions.finishing rows) rows)
      → ((c : SyncItemEntity) → (conditions.exchange c).write_throws ≡ none)
      → conditions.reset_works ≡ true
      → (s : SyncQueueStorage) → Distinct s.items
      → All NotInFlight s.items
      → All NotInFlight (run_cycle scan options credentials conditions s).storage.items
  run_cycle-NotInFlight orders finishes works resets s distinct idle =
      let claimed = claimed_by scan options credentials conditions s in
      rw (run_cycle-row_after scan options credentials conditions finishes orders s distinct) (
        each-All NotInFlight _ s.items (
          All-each NotInFlight _ s.items
            (row_after-NotInFlight works resets conditions.course claimed) idle))
