-- ===== src/Routes.antt =====
-- config/pyramidConfig.go: the shards as a graph, in which shard i stands beside shard j where one of
-- them holds the chain of the other; the check that the graph is connected, and the routes between
-- shards that neither stand side by side nor have a common parent. The matrix sd is the list of its
-- rows, and the entry -1 of `prev` is `none`.
pub mod Grid
mod Dfs
pub mod Connected
mod Trace
mod Scan
mod Search
mod Shrink
pub mod Table
mod Tests
use monosulfide.Prelude.{
  ℕ, zero, suc, ◌+◌, ◌-◌, Bool, true, false, not, ◌&&◌, List, [], ◌∷◌, ◌++◌, Option, none, some,
  length, take, drop, replicate, set, ltb, ◌==◌, if◌then◌else◌, get_elem?, Outcome, ok, panic,
  out_of_fuel, ◌>>=◌, deref,
}
use monosulfide.Pool.{at, or_else}

-- sd[i][j] || sd[j][i]
unfoldable pub linked : List (List Bool) → ℕ → ℕ → Outcome Bool
linked sd i j = or_else (at sd i j) (at sd j i)

-- visited[i] = true
unfoldable pub mark : List Bool → ℕ → Outcome (List Bool)
mark visited i = deref (get_elem? visited i) >>= λ _. ok (set visited i true)

-- (sd[i][j] || sd[j][i]) && !visited[j]
unfoldable pub fresh : List (List Bool) → ℕ → ℕ → List Bool → Outcome Bool
fresh sd i j visited = linked sd i j >>= λ l.
    if l then (deref (get_elem? visited j) >>= λ seen. ok (not seen)) else ok false

-- The loop of dfs over the `n` neighbours from `k` on; `visit` is dfs.
unfoldable pub dfs_loop :
    (ℕ → List Bool → Outcome (List Bool))
    → List (List Bool)
    → ℕ
    → ℕ
    → ℕ
    → List Bool
    → Outcome (List Bool)
dfs_loop visit sd shard k zero visited = ok visited
dfs_loop visit sd shard k (suc n) visited = fresh sd shard k visited >>= λ new.
    (if new then visit k visited else ok visited) >>= dfs_loop visit sd shard (suc k) n

unfoldable pub dfs : ℕ → List (List Bool) → ℕ → List Bool → Outcome (List Bool)
dfs zero sd shard visited = out_of_fuel
dfs (suc fuel) sd shard visited = mark visited shard >>= λ marked.
    deref (get_elem? sd shard) >>= λ row. dfs_loop (dfs fuel sd) sd shard 0 (length row) marked

-- The index of the first shard that was not visited.
unfoldable pub first_missing : ℕ → List Bool → Option ℕ
first_missing i [] = none
first_missing i (v ∷ visited) = if v then first_missing (suc i) visited else some i

-- checkConnectivity: `some i` is the error that names shard i.
unfoldable pub check_connectivity : ℕ → List (List Bool) → Outcome (Option ℕ)
check_connectivity amount sd =
    dfs (suc amount) sd 0 (replicate amount false) >>= λ visited. ok (first_missing 0 visited)

-- The variables of findRoute; `vis` and `prev` have the same length, so that an index which was read
-- in one can be written in the other.
pub record Frontier : Type 0 where
  pub vis : List Bool
  pub q : List ℕ
  pub prev : List (Option ℕ)

-- The loop of findRoute over the `n` neighbours of `curr` from `k` on.
unfoldable pub scan : List (List Bool) → ℕ → ℕ → ℕ → Frontier → Outcome Frontier
scan sd curr k zero s = ok s
scan sd curr k (suc n) s = fresh sd curr k s.vis >>= λ new. scan sd curr (suc k) n (
    if new
    then record { vis = set s.vis k true; q = s.q ++ k ∷ []; prev = set s.prev k (some curr) }
    else s)

-- The path that ends in `at`, before `path`.
unfoldable pub trace_back : ℕ → List (Option ℕ) → Option ℕ → List ℕ → Outcome (List ℕ)
trace_back zero prev curr path = out_of_fuel
trace_back (suc fuel) prev curr path = elim curr [
  | none ↦ ok path
  | some a ↦ deref (get_elem? prev a) >>= λ up. trace_back fuel prev up (a ∷ path)
]

-- append(path[:idx], path[idx+1:]...)
abbrev pub remove : ℕ → List ℕ → List ℕ
remove idx path = take idx path ++ drop (idx + 1) path

-- sd[sid][pre] && sd[sid][nxt]
unfoldable pub covers : List (List Bool) → ℕ → ℕ → ℕ → Outcome Bool
covers sd sid pre nxt = at sd sid pre >>= λ a. if a then at sd sid nxt else ok false

-- The loop that leaves out each shard which holds the chains of the shards before and after it.
unfoldable pub shrink : ℕ → List (List Bool) → ℕ → List ℕ → Outcome (List ℕ)
shrink zero sd idx path = out_of_fuel
shrink (suc fuel) sd idx path =
    let turn = deref (get_elem? path idx) >>= λ sid. deref (get_elem? path (idx - 1)) >>= λ pre.
    deref (get_elem? path (idx + 1)) >>= λ nxt. covers sd sid pre nxt >>= λ both.
    shrink fuel sd (idx + 1) (if both then remove idx path else path) in
    if ltb (idx + 1) (length path) then turn else ok path

unfoldable pub search : ℕ → List (List Bool) → ℕ → ℕ → Frontier → Outcome (List ℕ)
search zero sd amount j s = out_of_fuel
search (suc fuel) sd amount j s = elim s.q [
  | [] ↦ ok []
  | curr ∷ rest ↦
      let found = trace_back (suc amount) s.prev (some j) [] >>= λ path.
      shrink (suc (length path)) sd 1 path in
      let next = scan sd curr 0 amount (record s { q = rest }) >>= search fuel sd amount j in
      if curr == j then found else next
]

unfoldable pub find_route : ℕ → List (List Bool) → ℕ → ℕ → Outcome (List ℕ)
find_route amount sd i j = mark (replicate amount false) i >>= λ vis.
    search (suc amount) sd amount j (record { vis = vis; q = i ∷ []; prev = replicate amount none })

-- The loop of route over k: a third shard that holds the chains of both.
unfoldable pub common_parent : List (List Bool) → ℕ → ℕ → ℕ → ℕ → Outcome Bool
common_parent sd i j k zero = ok false
common_parent sd i j k (suc n) =
    (if k == i then ok false else if k == j then ok false else covers sd k i j) >>= λ both.
    let rest = common_parent sd i j (suc k) n in if both then ok true else rest

-- conf.shardRoute[i][j], with `none` for nil.
unfoldable pub route_entry : ℕ → List (List Bool) → ℕ → ℕ → Outcome (Option (List ℕ))
route_entry amount sd i j =
    if i == j
    then ok none
    else linked sd i j >>= λ l. (if l then ok true else common_parent sd i j 0 amount) >>= λ near.
        if near then ok none else find_route amount sd i j >>= λ path. ok (some path)

-- The loops of route over j and over i, for the `n` indices from the given one on.
unfoldable pub route_row : ℕ → List (List Bool) → ℕ → ℕ → ℕ → Outcome (List (Option (List ℕ)))
route_row amount sd i j zero = ok []
route_row amount sd i j (suc n) = route_entry amount sd i j >>= λ entry.
    route_row amount sd i (suc j) n >>= λ rest. ok (entry ∷ rest)

unfoldable pub route_rows : ℕ → List (List Bool) → ℕ → ℕ → Outcome (List (List (Option (List ℕ))))
route_rows amount sd i zero = ok []
route_rows amount sd i (suc n) = route_row amount sd i 0 amount >>= λ row.
    route_rows amount sd (suc i) n >>= λ rest. ok (row ∷ rest)

unfoldable pub route : ℕ → List (List Bool) → Outcome (List (List (Option (List ℕ))))
route amount sd = route_rows amount sd 0 amount

-- The part of InitShardConfig that checks the graph and builds the routes.
unfoldable pub init_routes : ℕ → List (List Bool) → Outcome (List (List (Option (List ℕ))))
init_routes amount sd = check_connectivity amount sd >>= λ missing. elim missing [
  | none ↦ route amount sd
  | some i ↦ panic
]
