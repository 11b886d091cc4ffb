-- ===== src/Cache/Tests.antt =====
-- Interleavings of `ContentCache` of src/simplicio_fast/content_cache.py, and the theorems at concrete
-- inputs.
use simplicio_fast.Prelude.{◌≡◌, ◌≢◌, refl, List, [], ◌∷◌, ok, err, strings_equate}
use simplicio_fast.Prelude.TestHash.{test_hash}
use simplicio_fast.Cache.{cache_corrupt, Cache, init, returns, invalidate, store, get}
use simplicio_fast.Cache.Steps.{Turn, gets, stores, lands, invalidates, run, run-get, get-stale}

-- Two calls for one key, an invalidation while the task runs, and another call.
abbrev history : List Turn
history =
    gets "k" ("a.py" ∷ [])
    ∷ gets "k" ("a.py" ∷ [])
    ∷ invalidates ("a.py" ∷ [])
    ∷ stores "k" (1 ∷ [])
    ∷ lands "k"
    ∷ gets "k" ("a.py" ∷ [])
    ∷ []

abbrev played : Cache
played = run test_hash history init

history_metrics :
    (played.metrics.hit ≡ 1)
    × (played.metrics.coalesced ≡ 1)
    × (played.metrics.miss ≡ 1)
    × (played.metrics.stale ≡ 0)
unfolding run get store test_hash
history_metrics = (refl, refl, refl, refl)

-- The theorems at inputs that run the code.
run-get_example : (get test_hash "k" [] played).0 ≢ err cache_corrupt
run-get_example = run-get test_hash history "k" []

abbrev flying : Cache
flying = run test_hash (gets "k" ("a.py" ∷ []) ∷ []) init

get-stale_example :
    (get test_hash "k"
      ("a.py" ∷ [])
      (store test_hash "k" (1 ∷ []) (invalidate ("a.py" ∷ []) flying).1)).0
    ≡ ok (returns (1 ∷ []))
unfolding run get
get-stale_example = get-stale test_hash ("a.py" ∷ []) "k" ("a.py" ∷ []) flying (1 ∷ []) refl
