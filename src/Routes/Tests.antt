-- ===== src/Routes/Tests.antt =====
-- The matrix of InitShardConfig, and one with a shard of its own.
use monosulfide.Prelude.{
  ℕ, zero, suc, ◌<◌, ◌≡◌, refl, Bool, true, false, List, [], ◌∷◌, some, length, ok, Returns, arith,
}
use monosulfide.Prelude.Arrays.{get_or}
use monosulfide.Pool.{at, or_else}
use monosulfide.Routes.{
  check_connectivity, first_missing, find_route, init_routes, dfs, dfs_loop, mark, linked, fresh,
  scan, trace_back, shrink, search, covers,
}
use monosulfide.Routes.Grid.{IsSquare, holds, adjacent}
use monosulfide.Routes.Connected.{Walk, here, next, Verdict, check_connectivity-Verdict}
use monosulfide.Routes.Table.{IsTable, init_routes-IsTable}

abbrev six_shards : List (List Bool)
six_shards =
    (true ∷ false ∷ false ∷ false ∷ false ∷ false ∷ [])
    ∷ (false ∷ true ∷ false ∷ false ∷ false ∷ false ∷ [])
    ∷ (false ∷ false ∷ true ∷ false ∷ false ∷ false ∷ [])
    ∷ (true ∷ true ∷ true ∷ true ∷ false ∷ false ∷ [])
    ∷ (false ∷ true ∷ true ∷ false ∷ true ∷ true ∷ [])
    ∷ (false ∷ false ∷ false ∷ false ∷ false ∷ true ∷ [])
    ∷ []

six_columns : (i : ℕ) → i < 6 → length (get_or six_shards i []) ≡ 6
six_columns zero h = refl
six_columns (suc zero) h = refl
six_columns (suc (suc zero)) h = refl
six_columns (suc (suc (suc zero))) h = refl
six_columns (suc (suc (suc (suc zero)))) h = refl
six_columns (suc (suc (suc (suc (suc zero))))) h = refl
six_columns (suc (suc (suc (suc (suc (suc i)))))) h = absurd (omega arith)

six_shards-IsSquare : IsSquare 6 six_shards
six_shards-IsSquare = record { rows = refl; columns = six_columns }

four_reached : Walk six_shards 0 4
unfolding adjacent holds
four_reached = next {j = 1} (next {j = 3} (next here refl) refl) refl

-- Over 3 to 1 and 2, and over 1 and 4 to 5.
six_reached : (k : ℕ) → k < 6 → Walk six_shards 0 k
unfolding adjacent holds
six_reached zero h = here
six_reached (suc zero) h = next (next {k = 3} here refl) refl
six_reached (suc (suc zero)) h = next (next {k = 3} here refl) refl
six_reached (suc (suc (suc zero))) h = next here refl
six_reached (suc (suc (suc (suc zero)))) h = four_reached
six_reached (suc (suc (suc (suc (suc zero))))) h = next four_reached refl
six_reached (suc (suc (suc (suc (suc (suc i)))))) h = absurd (omega arith)

check_connectivity-Verdict_example :
    Returns (Verdict 6 six_shards) (check_connectivity 6 six_shards)
check_connectivity-Verdict_example =
    check_connectivity-Verdict 6 six_shards six_shards-IsSquare (omega arith)

init_routes-IsTable_example :
    Returns (IsTable 6 six_shards six_shards-IsSquare) (init_routes 6 six_shards)
init_routes-IsTable_example =
    init_routes-IsTable 6 six_shards six_shards-IsSquare (omega arith) six_reached

-- 0 - 3 - 1 - 4 - 5 is found, and 3 and 4 are left out.
find_route_0_5 : find_route 6 six_shards 0 5 ≡ ok (0 ∷ 1 ∷ 5 ∷ [])
unfolding find_route search scan fresh linked mark trace_back shrink covers at or_else
find_route_0_5 = refl

two_apart : check_connectivity 2 ((true ∷ false ∷ []) ∷ (false ∷ true ∷ []) ∷ []) ≡ ok (some 1)
unfolding check_connectivity dfs dfs_loop mark fresh linked first_missing at or_else
two_apart = refl
