-- ===== src/Borrowck/Regions/Solve.antt =====
-- `solve` of src/borrowck/regions.rs, and the error that it builds.
pub mod Fixed
pub mod Blame
pub mod Verdict
use pocket_rust.Prelude.{
  ℕ, ◌+◌, Bool, true, false, not, ◌&&◌, Option, none, some, ◌>>=◌, unwrap_or, find, Result, ok, err,
  check_range, List, [], ◌∷◌, String, string_eq, ◌+++◌, decimal, ◌==◌, if◌then◌else◌, get_or,
  get_elem?,
}
use pocket_rust.Span.{Span, Error}
use pocket_rust.Borrowck.Graph.{
  RegionId, static_region, ConstraintSource, where_clause, static_outlives, fn_return, call_arg,
  call_return, reborrow, assign, OutlivesConstraint, RegionGraph,
}
use pocket_rust.Borrowck.Regions.{
  Matrix, at, is_declared, max_region, build_fixed_set, closure_over,
}

-- `place_to_string` of src/typeck/path_resolve.rs
unfoldable pub place_to_string : List String → String
place_to_string [] = ""
place_to_string (seg ∷ []) = seg
place_to_string (seg ∷ p) = seg +++ "." +++ place_to_string p

unfoldable pub source_label : ConstraintSource → String
source_label fn_return = "returned reference's lifetime"
source_label call_arg = "argument lifetime"
source_label call_return = "call result's lifetime"
source_label assign = "assigned value's lifetime"
source_label reborrow = "reborrowed reference's lifetime"
source_label where_clause = "lifetime"
source_label static_outlives = "lifetime"

-- The searches of `region_display` and `named_region` through `sig_named` and `sig_inferred`.
abbrev name_of : RegionId → List (String × RegionId) → Option String
name_of r [] = none
name_of r ((n, r2) ∷ regions) = let rest = name_of r regions in if r2 == r then some n else rest

abbrev id_of : RegionId → List (ℕ × RegionId) → Option ℕ
id_of r [] = none
id_of r ((id, r2) ∷ regions) = let rest = id_of r regions in if r2 == r then some id else rest

unfoldable pub region_display : RegionId → RegionGraph → String
region_display r graph =
    if r == static_region then "'static" else elim (name_of r graph.sig_named) [
      | some n ↦ "'" +++ n
      | none ↦ elim (id_of r graph.sig_inferred) [
        | some id ↦ "'_#" +++ decimal id
        | none ↦ "'<r" +++ decimal r +++ ">"
      ]
    ]

unfoldable pub named_region : RegionId → RegionGraph → Option String
named_region r graph = if r == static_region then some "static" else name_of r graph.sig_named

-- `c.get(a).and_then(|row| row.get(b)).copied().unwrap_or(false)`
unfoldable pub get_at : Matrix → ℕ → ℕ → Bool
get_at c a b = unwrap_or (get_elem? c a >>= (λ row. get_elem? row b)) false

-- The test of the search for the constraint to blame.
unfoldable pub on_path : Matrix → RegionId → RegionId → OutlivesConstraint → Bool
on_path c_full s1 s2 c =
    not (is_declared c.source) && (get_at c_full s1 c.sup && get_at c_full c.sub s2)

abbrev pub suggest : Option String → Option String → List String → String
suggest (some a) (some b) fn_path =
    if not (string_eq a b)
    then " (consider adding `where '"
      +++ a
      +++ ": '"
      +++ b
      +++ "` to `"
      +++ place_to_string fn_path
      +++ "`)"
    else ""
suggest _ _ fn_path = ""

abbrev pub blamed_label : Option OutlivesConstraint → String
blamed_label (some b) = source_label b.source
blamed_label none = "lifetime"

abbrev pub blamed_span : Option OutlivesConstraint → Span
blamed_span (some b) = b.span
blamed_span none = record {
  start = record { line = 1; col = 1 };
  end = record { line = 1; col = 1 };
}

unfoldable pub diag_for_pair :
    RegionGraph → RegionId → RegionId → Matrix → List String → String → Error
diag_for_pair graph s1 s2 c_full fn_path file =
    let blame = find (on_path c_full s1 s2) graph.outlives in
    let what = blamed_label blame in
    let s1_name = region_display s1 graph in
    let s2_name = region_display s2 graph in
    let suggestion = suggest (named_region s1 graph) (named_region s2 graph) fn_path in
    record {
      file = file;
      message =
          what +++ " `" +++ s1_name +++ "` does not outlive `" +++ s2_name +++ "`" +++ suggestion;
      span = blamed_span blame;
    }

-- The innermost tests of the two loops of `solve`.
abbrev pub check_pair :
    RegionGraph
    → List Bool
    → Matrix
    → Matrix
    → List String
    → String
    → RegionId
    → RegionId
    → Result (Unit {0}) Error
check_pair graph fixed c_d c_full fn_path file i j =
    if get_or fixed j false && not (i == j)
    then (if at c_full i j && not (at c_d i j)
        then err (diag_for_pair graph i j c_full fn_path file)
        else ok tt)
    else ok tt

unfoldable pub solve : RegionGraph → List String → String → Result (Unit {0}) Error
solve graph fn_path file =
    let n = max_region graph + 1 in
    let fixed = build_fixed_set graph n in
    let c_d = closure_over graph n (λ s. is_declared s) in
    let c_full = closure_over graph n (λ s. true) in
    check_range n 0 (λ i.
      if get_or fixed i false
      then check_range n 0 (check_pair graph fixed c_d c_full fn_path file i)
      else ok tt)
