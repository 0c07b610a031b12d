-- ===== src/Image/Tests.antt =====
-- A small store, and runs of the theorems.
use dicer.Prelude.{ℕ, ◌*◌, ◌≡◌, refl, sym, subst, inl, true, none, some, List, [], ◌∷◌, In}
use dicer.Text.{Runes, codes, runes_Eq}
use dicer.Maps.{lookup, assign, remove}
use dicer.Maps.Lookup.{ne_of_beq}
use dicer.Image.{Image, Host, Images}
use dicer.Image.Index.{digest_hex}
use dicer.Image.Removal.{prune}
use dicer.Image.Removals.{IsIndexed}
use dicer.Image.Garbage.{GcPolicy, size, unused, collect_garbage, mark_used}
use dicer.Image.Spares.{prune-Exact, collect_garbage-Spares}
use dicer.Image.Justified.{collect_garbage-AreJustified, collect_garbage-Enforces}
use dicer.Image.Runs.{Call, create, use_image, delete, prune_unused, collect_unused, run}
use dicer.Image.Lasts.{Lasts, run-Lasts}
use dicer.Image.Over.{IsJustified, IsCollected}

-- A host that never fails, whose layer cache has a size and is pruned to nothing.
abbrev host : Host ℕ
host = record {
  delete_files = λ d n. (true, n);
  save_metadata = λ i n. n;
  prune_cache = λ keep n. (some n, 0);
  cache_size = λ n. some n;
}

abbrev minute : ℕ
minute = 60000000000

abbrev image : Runes → ℕ → Image
image digest last = record {
  name = codes "web";
  digest = digest;
  size_bytes = 100;
  last_used_at = last * minute;
}

abbrev a : Runes
a = codes "a:1"

abbrev b : Runes
b = codes "b:2"

abbrev c : Runes
c = codes "c:3"

-- Three images, used 5, 20 and 40 minutes after the start, and a cache of 50 bytes.
abbrev store : Images ℕ
store = record { index = (a, image a 5) ∷ (b, image b 20) ∷ (c, image c 40) ∷ []; host = 50 }

abbrev policy : GcPolicy
policy = record { max_unused_age = 0; max_size = 250 }

abbrev now : ℕ
now = 60 * minute

-- The image used first goes, and the store is within the limit.
least_recent_goes :
    (collect_garbage host policy (c ∷ []) now store).result.removed
    ≡ record { image = image a 5; reason = size } ∷ []
unfolding collect_garbage lookup assign
least_recent_goes = refl

expired_goes :
    (collect_garbage host
      (record { max_unused_age = 30 * minute; max_size = 0 })
      (a ∷ [])
      now
      store).result.removed
    ≡ record { image = image b 20; reason = unused } ∷ []
unfolding collect_garbage lookup assign
expired_goes = refl

pruned : (prune host (b ∷ []) store).store.index ≡ (b, image b 20) ∷ []
unfolding prune lookup remove
pruned = refl

digest_without_prefix : digest_hex (codes "sha256:1f") ≡ codes "1f"
unfolding digest_hex
digest_without_prefix = refl

store-IsIndexed : IsIndexed store.index
store-IsIndexed = (
  (((ne_of_beq b a refl, (ne_of_beq c a refl, tt)), ((ne_of_beq c b refl, tt), (tt, tt)))),
  (refl, (refl, (refl, tt))),
)

no_failure : (collect_garbage host policy (c ∷ []) now store).error ≡ none
unfolding collect_garbage lookup assign
no_failure = refl

holds_a : lookup a store.index ≡ some (image a 5)
unfolding lookup
holds_a = refl

holds_c : lookup c store.index ≡ some (image c 40)
unfolding lookup
holds_c = refl

prune-Exact_example : lookup a (prune host (b ∷ []) store).store.index ≡ none
prune-Exact_example = prune-Exact host (b ∷ []) store store-IsIndexed a

collect_garbage-Spares_example :
    lookup c (collect_garbage host policy (c ∷ []) now store).store.index ≡ some (image c 60)
collect_garbage-Spares_example =
    collect_garbage-Spares host (c ∷ []) now policy c store store-IsIndexed holds_c (inl refl)

collect_garbage-AreJustified_example :
    IsJustified host
      (c ∷ [])
      now
      policy
      (record { image = image a 5; reason = size })
      (collect_garbage host policy (c ∷ []) now store).store.index
collect_garbage-AreJustified_example =
    collect_garbage-AreJustified host (c ∷ []) now policy store store-IsIndexed
      (record { image = image a 5; reason = size })
      (subst (In (record { image = image a 5; reason = size })) (sym least_recent_goes) (inl refl))

collect_garbage-Enforces_example :
    IsCollected host (c ∷ []) now policy (collect_garbage host policy (c ∷ []) now store).store
collect_garbage-Enforces_example =
    collect_garbage-Enforces host (c ∷ []) now policy store store-IsIndexed no_failure

-- Pulled twice, used, and deleted.
abbrev calls : List Call
calls =
    create (image a 5) ∷ create (image a 5) ∷ use_image a now ∷ create (image b 20) ∷ delete a ∷ []

calls_leave : lookup b (run host calls (record { index = []; host = 0 })).index ≡ some (image b 20)
unfolding lookup assign remove mark_used
calls_leave = refl

-- The image is pulled again under another name, marked at an earlier time, and spared by a prune and a
-- collection.
abbrev later_calls : List Call
later_calls =
    create (record { name = codes "other"; digest = a; size_bytes = 1; last_used_at = 0 })
    ∷ use_image a (2 * minute)
    ∷ delete b
    ∷ prune_unused (a ∷ [])
    ∷ collect_unused policy (a ∷ []) now
    ∷ []

run-Lasts_example : Lasts host a (image a 5) (run host later_calls store)
run-Lasts_example =
    run-Lasts host a later_calls (image a 5) store store-IsIndexed
      (tt, (tt, (ne_of_beq b a refl, (refl, (refl, tt))))) holds_a
