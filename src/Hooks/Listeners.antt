-- ===== src/Hooks/Listeners.antt =====
-- How a hook that holds one listener deals with it: an interface that such hooks fill, and what
-- follows from it for every order of events.
use Prim.Native.String.{String}
use react_native_sync_provid.Common.{
  ℕ, ◌+◌, ◌≤◌, ◌≡◌, refl, ◌⊎◌, inl, inr, sym, ◌∙◌, ap, true, false, List, [], ◌∷◌, length, Option,
  none, some, arith,
}
use react_native_sync_provid.Hooks.Runtime.{
  Program, listed, collect, Running, Picks, Step, settles, receives, unmounts, Reach, Reach-inv,
  settled_by, unmounted_by, obtained, removed, collect-append, tally, tally-Picks, tally-append,
}

abbrev pub newer : Option String → Option String → Option String
newer none old = old
newer (some id) old = some id

length-listed :
    (o : Option String) (ids : List String)
    → length (listed o ids) ≡ length (listed o []) + length ids
length-listed none ids = omega arith
length-listed (some id) ids = omega arith

held_after :
    (o : Option String) (ids : List String) (old : Option String)
    → ids ≡ listed old []
    → length (listed o []) + length ids ≤ 1
    → listed o ids ≡ listed (newer o old) []
held_after none ids old e h = e
held_after (some id) [] old e h = refl
held_after (some id) (x ∷ ids) old e h = absurd (omega (arith, h))

-- The hook keeps the id of its listener in its state; `weight` counts the subscriptions that a wait
-- can still lead to. Only the cleanup removes a listener, and it removes the one that is held.
pub record HoldsListener {S W R I : Type 0} (p : Program S W R I) : Type 0 where
  pub held : S → Option String
  pub weight : W → ℕ
  pub settle_held : (r : R) (s : S) → held (p.settle r s).0 ≡ newer (p.subscription r) (held s)
  pub settle_weight :
      (r : R) (s : S)
      → tally weight (p.settle r s).1 + length (listed (p.subscription r) []) ≤ weight (p.settles r)
  pub settle_quiet :
      (r : R) (s : S) (ids : List String) → collect p.removal (p.settle r s).1 ids ≡ ids
  pub input_held : (i : I) (s : S) → held (p.input i s).0 ≡ held s
  pub input_weight : (i : I) (s : S) → tally weight (p.input i s).1 ≡ 0
  pub input_quiet :
      (i : I) (s : S) (ids : List String) → collect p.removal (p.input i s).1 ids ≡ ids
  pub cleanup_held : (s : S) → held (p.cleanup s).0 ≡ held s
  pub cleanup_weight : (s : S) → tally weight (p.cleanup s).1 ≡ 0
  pub cleanup_removes :
      (s : S) (ids : List String) → collect p.removal (p.cleanup s).1 ids ≡ listed (held s) ids

module _ {S W R I : Type 0} (p : Program S W R I) (l : HoldsListener p) where
  -- The hook obtains one listener at most, holds it, and removes none while it is mounted.
  pub record IsTidy (h : Running S W R) : Type 0 where
    pub once : tally l.weight h.pending + length (obtained p h) ≤ 1
    pub held : obtained p h ≡ listed (l.held h.state) []
    pub kept : (h.mounted ≡ false) ⊎ (removed p h ≡ [])

  settles-IsTidy :
      (h : Running S W R) (r : R) (rest : List W)
      → Picks (p.settles r) h.pending rest
      → IsTidy h
      → IsTidy (settled_by p h r rest)
  settles-IsTidy h r rest pick t =
      let less = l.settle_weight r h.state in
      let picked = tally-Picks l.weight pick in
      record {
        once = omega (
          arith,
          tally-append l.weight rest (p.settle r h.state).1,
          length-listed (p.subscription r) (obtained p h),
          less,
          picked,
          t.once,
        );
        held =
            held_after (p.subscription r) (obtained p h) (l.held h.state) t.held
              (omega (arith, less, picked, t.once))
            ∙ ap (λ o. listed o []) (sym (l.settle_held r h.state));
        kept =
            rw
              (
                collect-append p.removal (p.settle r h.state).1 h.calls [],
                l.settle_quiet r h.state (removed p h),
              )
              t.kept;
      }

  Step-IsTidy : (g k : Running S W R) → Step p g k → IsTidy g → IsTidy k
  Step-IsTidy g k (settles r {rest} pick) t = settles-IsTidy g r rest pick t
  Step-IsTidy g k (receives i) t = record {
    once = omega (
      arith,
      tally-append l.weight g.pending (p.input i g.state).1,
      l.input_weight i g.state,
      t.once,
    );
    held = t.held ∙ ap (λ o. listed o []) (sym (l.input_held i g.state));
    kept =
        rw
          (
            collect-append p.removal (p.input i g.state).1 g.calls [],
            l.input_quiet i g.state (removed p g),
          )
          t.kept;
  }
  Step-IsTidy g k (unmounts m) t = record {
    once = omega (
      arith,
      tally-append l.weight g.pending (p.cleanup g.state).1,
      l.cleanup_weight g.state,
      t.once,
    );
    held = t.held ∙ ap (λ o. listed o []) (sym (l.cleanup_held g.state));
    kept = inl refl;
  }

  -- What is removed at the unmount is what was obtained before it.
  pub unmounted_by-removed :
      (h : Running S W R)
      → h.mounted ≡ true
      → IsTidy h
      → removed p (unmounted_by p h) ≡ obtained p h
  unmounted_by-removed h m t = elim t.kept [
    | inl gone ↦ cc
    | inr none_yet ↦
        rw
          (
            collect-append p.removal (p.cleanup h.state).1 h.calls [],
            l.cleanup_removes h.state (removed p h),
            none_yet,
            t.held,
          )
          refl
  ]

  record IsGone (ids : List String) (h : Running S W R) : Type 0 where
    unmounted : h.mounted ≡ false
    unchanged : removed p h ≡ ids

  Step-IsGone : (ids : List String) (g k : Running S W R) → Step p g k → IsGone ids g → IsGone ids k
  Step-IsGone ids g k (settles r pick) t = record {
    unmounted = t.unmounted;
    unchanged =
        collect-append p.removal (p.settle r g.state).1 g.calls []
        ∙ l.settle_quiet r g.state (removed p g)
        ∙ t.unchanged;
  }
  Step-IsGone ids g k (receives i) t = record {
    unmounted = t.unmounted;
    unchanged =
        collect-append p.removal (p.input i g.state).1 g.calls []
        ∙ l.input_quiet i g.state (removed p g)
        ∙ t.unchanged;
  }
  Step-IsGone ids g k (unmounts m) t = absurd (ground (arith, m, t.unmounted))

  -- After the unmount no listener is removed any more.
  pub Reach-removed :
      {h k : Running S W R} → h.mounted ≡ false → Reach p h k → removed p k ≡ removed p h
  Reach-removed {h} m r =
      (Reach-inv p (IsGone (removed p h)) (Step-IsGone (removed p h))
        (record { unmounted = m; unchanged = refl }) r).unchanged

  pub Reach-IsTidy : {h k : Running S W R} → IsTidy h → Reach p h k → IsTidy k
  Reach-IsTidy t r = Reach-inv p IsTidy Step-IsTidy t r
