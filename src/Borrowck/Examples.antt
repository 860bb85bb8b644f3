-- ===== src/Borrowck/Examples.antt =====
-- Runs of the solver on small graphs, and its theorems at them.
use pocket_rust.Prelude.{
  false, ◌⊎◌, decimal, ℕ, ◌+◌, ◌≡◌, ◌↔◌, refl, true, some, List, [], ◌∷◌, ok, err, check_range,
  for_each, for_range, find, unwrap_or, ◌+++◌, arith,
}
use pocket_rust.Span.{Span, Error}
use pocket_rust.Typeck.Types.{int, u32}
use pocket_rust.Borrowck.Cfg.{
  Place, field, tuple_index, deref, LocalDecl, render, overlaps, is_prefix_of,
}
use pocket_rust.Borrowck.Cfg.Places.{Prefix, is_prefix_of-Prefix, overlaps-Prefix}
use pocket_rust.Borrowck.Graph.{
  RegionId, where_clause, assign, fn_return, ConstraintSource, OutlivesConstraint, RegionGraph,
}
use pocket_rust.Borrowck.Regions.{at, is_declared, max_region, closure_over, build_fixed_set, mark}
use pocket_rust.Borrowck.Regions.Reach.{Outlives}
use pocket_rust.Borrowck.Regions.Decides.{closure_over-Outlives}
use pocket_rust.Borrowck.Regions.Solve.{
  solve, diag_for_pair, on_path, get_at, source_label, region_display, named_region,
  place_to_string,
}
use pocket_rust.Borrowck.Regions.Solve.Fixed.{max_region-Bounded}
use pocket_rust.Borrowck.Regions.Solve.Verdict.{Supported, Blames, solve-ok, solve-err}

abbrev named_local : LocalDecl
named_local = record {
  name = some "x";
  ty = int u32;
  span = record { start = record { line = 1; col = 1 }; end = record { line = 1; col = 2 } };
  mutable = false;
  is_temp = false;
}

abbrev through : Place
through = record { root = 1; projections = field "left" ∷ deref ∷ [] }

abbrev below : Place
below = record { root = 1; projections = field "left" ∷ deref ∷ tuple_index 0 ∷ [] }

rendered : render below (named_local ∷ named_local ∷ []) ≡ "(*x.left).0"
unfolding render for_each decimal ◌+++◌
rendered = refl

overlaps-Prefix_example :
    (overlaps below through ≡ true) ↔ (Prefix below through ⊎ Prefix through below)
overlaps-Prefix_example = overlaps-Prefix below through

is_prefix_of-Prefix_example : (is_prefix_of through below ≡ true) ↔ Prefix through below
is_prefix_of-Prefix_example = is_prefix_of-Prefix through below

abbrev line : ℕ → Span
line n = record { start = record { line = n; col = 5 }; end = record { line = n; col = 9 } }

abbrev edge : RegionId → RegionId → ℕ → ConstraintSource → OutlivesConstraint
edge sup sub n source = record { sup = sup; sub = sub; span = line n; source = source }

-- `fn longest<'a, 'b>(x: &'a T, y: &'b T) -> &'b T` that returns `x` through a fresh region.
abbrev routed : List OutlivesConstraint → RegionGraph
routed facts = record {
  sig_named = ("a", 1) ∷ ("b", 2) ∷ [];
  sig_inferred = [];
  fn_return_region = some 2;
  outlives = edge 1 3 7 assign ∷ edge 3 2 8 fn_return ∷ facts;
}

abbrev complaint : Error
complaint = record {
  file = "lib.rs";
  message =
      "assigned value's lifetime `'a` does not outlive `'b` (consider adding `where 'a: 'b` to `m.longest`)";
  span = line 7;
}

solve-complaint : solve (routed []) ("m" ∷ "longest" ∷ []) "lib.rs" ≡ err complaint
unfolding solve check_range max_region for_each build_fixed_set at mark closure_over for_range
    is_declared diag_for_pair find on_path get_at unwrap_or source_label region_display named_region
    place_to_string ◌+++◌
solve-complaint = refl

abbrev supported : RegionGraph
supported = routed (edge 1 2 1 where_clause ∷ [])

solve-supported : solve supported ("m" ∷ "longest" ∷ []) "lib.rs" ≡ ok tt
unfolding solve check_range max_region for_each build_fixed_set at closure_over for_range
    is_declared
solve-supported = refl

solve-ok_example :
    (solve supported ("longest" ∷ []) "lib.rs" ≡ ok tt)
    ↔ Supported supported ("longest" ∷ []) "lib.rs"
solve-ok_example = solve-ok supported ("longest" ∷ []) "lib.rs"

solve-err_example :
    (i : RegionId) × (j : RegionId) × (con : OutlivesConstraint) × Blames
      (routed [])
      ("m" ∷ "longest" ∷ [])
      "lib.rs"
      i
      j
      con
      complaint
solve-err_example = solve-err (routed []) ("m" ∷ "longest" ∷ []) "lib.rs" complaint solve-complaint

closure_over-Outlives_example :
    (at (closure_over supported (max_region supported + 1) is_declared) 1 2 ≡ true)
    ↔ Outlives is_declared supported.outlives 1 2
unfolding max_region for_each
closure_over-Outlives_example =
    closure_over-Outlives supported (max_region supported + 1) is_declared 1 2
      (max_region-Bounded supported).constraints (omega arith)
