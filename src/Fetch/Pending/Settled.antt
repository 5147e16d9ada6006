-- ===== src/Fetch/Pending/Settled.antt =====
-- What fm_process_pending settles, while the calls start fetches and the workers complete others.
use cqjs.Prelude.{
  ℕ, zero, suc, ◌+◌, ◌≤◌, ◌<◌, Bool-cases, true, false, none, some, List, [], ◌∷◌, ◌++◌, map,
  length, length-append, All, if◌then◌else◌, ◌≡◌, refl, ap, inl, inr, ◌⊎◌, arith,
}
use cqjs.Fetch.{FetchEntry}
use cqjs.Fetch.Pending.{
  Settlement, settlement, take_completed, further, count_one, fm_process_pending,
}

-- The entries that are completed.
unfoldable pub done : List FetchEntry → List FetchEntry
done [] = []
done (e ∷ es) = let rest = done es in if e.completed then e ∷ rest else rest

abbrev pub IsRunning : FetchEntry → Type 0
IsRunning e = e.completed ≡ false

-- The first list is the second without some of its entries.
pub data Within : List FetchEntry → List FetchEntry → Type 0 where
  nothing : Within [] []
  kept : (e : FetchEntry) {es fs : List FetchEntry} → Within es fs → Within (e ∷ es) (e ∷ fs)
  passed : (e : FetchEntry) {es fs : List FetchEntry} → Within es fs → Within es (e ∷ fs)

Within-refl : (es : List FetchEntry) → Within es es
Within-refl [] = nothing
Within-refl (e ∷ es) = kept e (Within-refl es)

Within-trans : {es fs gs : List FetchEntry} → Within es fs → Within fs gs → Within es gs
Within-trans h nothing = h
Within-trans (kept e h) (kept _ later) = kept e (Within-trans h later)
Within-trans (passed e h) (kept _ later) = passed e (Within-trans h later)
Within-trans h (passed e later) = passed e (Within-trans h later)

-- The first completed entry of a list, with what is in front of it and behind it.
abbrev pub IsFirst : List FetchEntry → List FetchEntry → FetchEntry → List FetchEntry → Type 0
IsFirst es front e back = (es ≡ front ++ e ∷ back) × All IsRunning front × (e.completed ≡ true)

-- What a walk finds.
take_completed-cases :
    (es : List FetchEntry)
    → ((take_completed es ≡ none) × All IsRunning es × (done es ≡ []))
      ⊎ ((front : List FetchEntry) × (e : FetchEntry) × (back : List FetchEntry) × IsFirst es front
            e back
          × (take_completed es ≡ some (e, front ++ back))
          × (done es ≡ e ∷ done (front ++ back)))
unfolding take_completed further done
take_completed-cases [] = inl (refl, tt, refl)
take_completed-cases (e ∷ es) = elim (Bool-cases e.completed) [
  | inl c ↦ inr ([], e, es, (refl, tt, c), simp c, simp c)
  | inr c ↦ elim (take_completed-cases es) [
    | inl (t, runs, d) ↦ inl (simp (c, t), (c, runs), simp (c, d))
    | inr (front, found, back, (split, runs, comp), t, d) ↦
        inr (
          e ∷ front,
          found,
          back,
          (ap (λ l. e ∷ l) split, (c, runs), comp),
          simp (c, t),
          simp (c, d),
        )
  ]
]

done-completed :
    (e : FetchEntry) (es : List FetchEntry) → e.completed ≡ true → done (e ∷ es) ≡ e ∷ done es
unfolding done
done-completed e es c = simp c

done-running : (e : FetchEntry) (es : List FetchEntry) → IsRunning e → done (e ∷ es) ≡ done es
unfolding done
done-running e es c = simp c

done-behind : (new es : List FetchEntry) → Within (done es) (done (new ++ es))
done-behind [] es = unfold done in Within-refl (done es)
done-behind (e ∷ new) es = elim (Bool-cases e.completed) [
  | inl c ↦ rw (done-completed e (new ++ es) c) (passed e (done-behind new es))
  | inr c ↦ rw (done-running e (new ++ es) c) (done-behind new es)
]

-- A worker completes an entry; it changes nothing of an entry that is completed.
abbrev pub IsMark : (FetchEntry → FetchEntry) → Type 0
IsMark mark = (e : FetchEntry) → e.completed ≡ true → mark e ≡ e

done-map :
    (mark : FetchEntry → FetchEntry)
    → IsMark mark
    → (es : List FetchEntry) → Within (done es) (done (map mark es))
done-map mark marks [] = unfold done in nothing
done-map mark marks (e ∷ es) = elim (Bool-cases e.completed) [
  | inl c ↦
      rw (marks e c, done-completed e es c, done-completed e (map mark es) c)
        (kept e (done-map mark marks es))
  | inr c ↦
      rw (done-running e es c)
        (Within-trans (done-map mark marks es) (done-behind (mark e ∷ []) (map mark es)))
]

length-map :
    (mark : FetchEntry → FetchEntry) (es : List FetchEntry) → length (map mark es) ≡ length es
length-map mark [] = refl
length-map mark (e ∷ es) = ap suc (length-map mark es)

-- While a promise's function is called, it starts fetches, which are put in front of the list, the
-- workers complete some of those that were there, and the engine's state changes.
module _ {ℓ} {W : Type ℓ} (added : Settlement → W → List FetchEntry)
    (mark : Settlement → W → FetchEntry → FetchEntry) (next : Settlement → W → W) where
  abbrev pub starting : Settlement → List FetchEntry × W → List FetchEntry × W
  starting s (es, w) = (added s w ++ map (mark s w) es, next s w)

  -- The entries in the list are taken one after the other, each as the first that is completed by
  -- then, until there is none.
  pub data Settles : List FetchEntry × W → List FetchEntry → List FetchEntry × W → Type ℓ where
    stops : {es : List FetchEntry} {w : W} → All IsRunning es → Settles (es, w) [] (es, w)
    settles :
        {es taken : List FetchEntry} {w : W} {final : List FetchEntry × W} (front : List FetchEntry)
        (e : FetchEntry) (back : List FetchEntry)
        → IsFirst es front e back
        → Settles (starting (settlement e) (front ++ back, w)) taken final
        → Settles (es, w) (e ∷ taken) final

  -- Suppose that the promises' functions start no more fetches than a budget allows, and that a
  -- worker changes no entry that is completed. Then, with a walk for each fetch that is pending or
  -- allowed and one more, fm_process_pending ends with none completed in the list: it settles one
  -- entry after the other, each the first that is completed by then, and returns how many; among
  -- them are, in the order of the list, all that were completed at the start.
  pub fm_process_pending-Settles :
      (budget : W → ℕ)
      → ((s : Settlement) (w : W) → length (added s w) + budget (next s w) ≤ budget w)
      → ((s : Settlement) (w : W) → IsMark (mark s w))
      → (fuel : ℕ) (es : List FetchEntry) (w : W) → length es + budget w < fuel
      → (taken : List FetchEntry) × (final : List FetchEntry × W) × (fm_process_pending starting
            fuel
            (es, w)
          ≡ some (length taken, final))
        × Settles (es, w) taken final
        × Within (done es) taken
  unfolding fm_process_pending count_one
  fm_process_pending-Settles budget spends marks zero es w h = absurd (omega arith)
  fm_process_pending-Settles budget spends marks (suc fuel) es w h =
      elim (take_completed-cases es) [
        | inl (t, runs, d) ↦
            ([], (es, w), rw (t, fm_process_pending) refl, stops runs, rw (d) nothing)
        | inr (front, e, back, (split, runs, comp), t, d) ↦
            let s = settlement e in
            let rest = map (mark s w) (front ++ back) in
            let sizes : length (added s w ++ rest) + budget (next s w) < fuel = omega (
              arith,
              spends s w,
              length-append (added s w) rest,
              length-map (mark s w) (front ++ back),
              length-append front back,
              length-append front (e ∷ back),
              ap length split,
            ) in
            let (taken, final, run, chain, within) =
              fm_process_pending-Settles budget spends marks fuel (added s w ++ rest) (next s w)
                sizes in
            (
              e ∷ taken,
              final,
              rw (t, fm_process_pending, run) refl,
              settles front e back (split, runs, comp) chain,
              rw (d) (
                  kept e (
                    Within-trans
                      (Within-trans (done-map (mark s w) (marks s w) (front ++ back))
                        (done-behind (added s w) rest))
                      within)),
            )
      ]
