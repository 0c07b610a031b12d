-- ===== src/Image/Loop.antt =====
-- The loop of a collection over the size, the least recently used image first.
use dicer.Prelude.{
  ℕ, ◌≤◌, ◌≡◌, refl, sym, ap, ◌∙◌, ◌⊎◌, inl, inr, Option, none, some, List, [], ◌∷◌, leb, leb→le,
  Bool-cases, Option-cases, subst, In,
}
use dicer.Errors.{Error, other}
use dicer.Image.{Image, Host, Images}
use dicer.Image.Garbage.{
  size, GcRemoval, GcResult, GcRun, collect, collect_for_size, store_size, and_then, within,
}
use dicer.Image.Drops.{
  Drops, drop_nothing, drop_first, Answers, collect-Drops, collect-Answers, Stops,
}

module _ {R : Type 0} (ops : Host R) (limit : ℕ) where
  abbrev ended : GcResult → Images R → Option Error → GcRun ops
  ended result st e = record { store = st; result = result; error = e }

  -- The loop ends before its next image.
  stops_here :
      (images : List Image) (result : GcResult) (st : Images R) (e : Option Error)
      → (e ≡ none → (images ≡ []) ⊎ ((n : ℕ) × (store_size ops st ≡ some n) × (n ≤ limit)))
      → Stops ops limit images result st (ended result st e)
  stops_here images result st e h = record {
    done = [];
    left = images;
    whole = refl;
    drops = drop_nothing st.index;
    answers = λ r m. inl m;
    stops = h;
  }

  -- The next image is collected, and the loop goes on or fails.
  module _ (i : Image) (images : List Image) (result : GcResult) (st : Images R) where
    abbrev first : GcRun ops
    first = collect ops (i ∷ []) size result st

    first-Drops : Drops (i ∷ []) st.index first.store.index
    first-Drops = collect-Drops ops (i ∷ []) size result st

    first-Answers : Answers size (i ∷ []) result first.result
    first-Answers = collect-Answers ops (i ∷ []) size result st

    fails : (e : Error) → first.error ≡ some e → Stops ops limit (i ∷ images) result st first
    fails e h = record {
      done = i ∷ [];
      left = images;
      whole = refl;
      drops = first-Drops;
      answers = first-Answers;
      stops = λ q. absurd (some_none (sym h ∙ q));
    }
      where
        some_none : some e ≡ none → ⊥
        some_none q = cc

    goes_on :
        (run : GcRun ops)
        → Stops ops limit images first.result first.store run
        → Stops ops limit (i ∷ images) result st run
    goes_on run s = record {
      done = i ∷ s.done;
      left = s.left;
      whole = ap (λ x. i ∷ x) s.whole;
      drops = drop_first i s.done st.index first.store.index run.store.index first-Drops s.drops;
      answers = λ r m. answered r (s.answers r m);
      stops = s.stops;
    }
      where
        answered :
            (r : GcRemoval)
            → In r first.result.removed ⊎ ((r.reason ≡ size) × In r.image s.done)
            → In r result.removed ⊎ ((r.reason ≡ size) × In r.image (i ∷ s.done))
        answered r (inr (e, m)) = inr (e, inr m)
        answered r (inl m) = elim (first-Answers r m) [
          | inl old ↦ inl old
          | inr (e, inl q) ↦ inr (e, inl q)
          | inr (e, inr k) ↦ absurd k.1
        ]

    rest-Stops :
        (next : GcResult → Images R → GcRun ops)
        → Stops ops limit images first.result first.store (next first.result first.store)
        → Stops ops limit (i ∷ images) result st (and_then ops first.error first next)
    rest-Stops next s = elim (Option-cases first.error) [
      | inl h ↦
          subst (λ o. Stops ops limit (i ∷ images) result st (and_then ops o first next)) (sym h)
            (goes_on (next first.result first.store) s)
      | inr (e, h) ↦
          subst (λ o. Stops ops limit (i ∷ images) result st (and_then ops o first next)) (sym h)
            (fails e h)
    ]

    within-Stops :
        (run : GcRun ops)
        → Stops ops limit (i ∷ images) result st run
        → Stops ops limit
            (i ∷ images)
            result
            st
            (within ops limit (store_size ops st) result st run)
    within-Stops run s = elim (Option-cases (store_size ops st)) [
      | inl h ↦ rw h (stops_here (i ∷ images) result st (some other) (λ q. cc))
      | inr (n, h) ↦ elim (Bool-cases (leb n limit)) [
        | inl y ↦
            rw (h, y) (stops_here (i ∷ images) result st none (λ q. inr (n, h, leb→le n limit y)))
        | inr m ↦ rw (h, m) s
      ]
    ]

  pub collect_for_size-Stops :
      (images : List Image) (result : GcResult) (st : Images R)
      → Stops ops limit images result st (collect_for_size ops limit images result st)
  unfolding collect_for_size
  collect_for_size-Stops [] result st = stops_here [] result st none (λ q. inl refl)
  collect_for_size-Stops (i ∷ images) result st = within-Stops i images result st _ (
      rest-Stops i images result st (collect_for_size ops limit images) (
        collect_for_size-Stops images (first i images result st).result
          (first i images result st).store))
