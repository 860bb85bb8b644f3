-- ===== src/Borrowck/Regions.antt =====
-- src/borrowck/regions.rs: the solver that checks the outlives constraints of a function.
pub mod Matrix
pub mod Reach
pub mod Closure
pub mod Decides
pub mod Solve
use pocket_rust.Prelude.{
  ℕ, zero, suc, ◌+◌, ◌<◌, Bool, true, false, not, ◌&&◌, ◌||◌, Option, none, some, List, [], ◌∷◌,
  String, string_eq, ◌+++◌, decimal, ltb, ◌==◌, if◌then◌else◌, get_or, set, replicate, for_each,
  for_range, length,
}
use pocket_rust.Span.{Span, Error}
use pocket_rust.Borrowck.Graph.{
  RegionId, static_region, ConstraintSource, where_clause, static_outlives, fn_return, call_arg,
  call_return, reborrow, assign, OutlivesConstraint, RegionGraph,
}

unfoldable pub is_declared : ConstraintSource → Bool
is_declared where_clause = true
is_declared static_outlives = true
is_declared _ = false

-- `Vec<Vec<bool>>`; no index that the solver forms is out of bounds.
abbrev pub Matrix : Type 0
Matrix = List (List Bool)

-- `c[a][b]`
unfoldable pub at : Matrix → ℕ → ℕ → Bool
at c a b = get_or (get_or c a []) b false

-- `c[a][b] = true`
unfoldable pub mark : Matrix → ℕ → ℕ → Matrix
mark c a b = set c a (set (get_or c a []) b true)

abbrev pub larger : ℕ → ℕ → ℕ
larger m r = if ltb m r then r else m

unfoldable pub max_region : RegionGraph → RegionId
max_region graph =
    let m : ℕ = 0 in
    let m = for_each (λ m (n, r). larger m r) m graph.sig_named in
    let m = for_each (λ m (id, r). larger m r) m graph.sig_inferred in
    for_each (λ m c. larger (larger m c.sup) c.sub) m graph.outlives

-- A flag is set only in bounds.
abbrev pub fix_region : List Bool → ℕ → List Bool
fix_region fixed r = if ltb r (length fixed) then set fixed r true else fixed

unfoldable pub build_fixed_set : RegionGraph → ℕ → List Bool
build_fixed_set graph n =
    let fixed = set (replicate n false) static_region true in
    let fixed = for_each (λ fixed (name, r). fix_region fixed r) fixed graph.sig_named in
    for_each (λ fixed (id, r). fix_region fixed r) fixed graph.sig_inferred

abbrev pub add_edge : (ConstraintSource → Bool) → Matrix → OutlivesConstraint → Matrix
add_edge pred c con = if pred con.source then mark c con.sup con.sub else c

-- The body of the three loops.
abbrev pub relax : ℕ → ℕ → ℕ → Matrix → Matrix
relax k a b c = if at c a k && at c k b then mark c a b else c

unfoldable pub closure_over : RegionGraph → ℕ → (ConstraintSource → Bool) → Matrix
unfolding at mark
closure_over graph n pred =
    let c = replicate n (replicate n false) in
    let c = for_range n 0 (λ i c. mark c i i) c in
    let c = for_each (add_edge pred) c graph.outlives in
    for_range n 0 (λ k c. for_range n 0 (λ a c. for_range n 0 (λ b c. relax k a b c) c) c) c
