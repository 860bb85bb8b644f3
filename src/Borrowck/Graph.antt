-- ===== src/Borrowck/Graph.antt =====
-- The region graph of src/borrowck/cfg.rs.
use pocket_rust.Prelude.{
  ℕ, Option, none, some, List, [], ◌∷◌, String, string_eq, ◌==◌, if◌then◌else◌,
}
use pocket_rust.Span.{Span}

abbrev pub RegionId : Type 0
RegionId = ℕ

-- `STATIC_REGION`
abbrev pub static_region : RegionId
static_region = 0

pub data ConstraintSource : Type 0 where
  where_clause static_outlives fn_return call_arg call_return reborrow assign : ConstraintSource

-- `sup` outlives `sub`.
pub record OutlivesConstraint : Type 0 where
  pub sup : RegionId
  pub sub : RegionId
  pub span : Span
  pub source : ConstraintSource

pub record RegionGraph : Type 0 where
  pub sig_named : List (String × RegionId)
  pub sig_inferred : List (ℕ × RegionId)
  pub fn_return_region : Option RegionId
  pub outlives : List OutlivesConstraint

-- `RegionGraph::new`
abbrev pub new_graph : RegionGraph
new_graph = record { sig_named = []; sig_inferred = []; fn_return_region = none; outlives = [] }

lookup_name : String → List (String × RegionId) → Option RegionId
lookup_name name [] = none
lookup_name name ((n, r) ∷ regions) = if string_eq n name then some r else lookup_name name regions

unfoldable pub lookup_named : RegionGraph → String → Option RegionId
unfolding lookup_name
lookup_named graph name = lookup_name name graph.sig_named

lookup_id : ℕ → List (ℕ × RegionId) → Option RegionId
lookup_id id [] = none
lookup_id id ((n, r) ∷ regions) = if n == id then some r else lookup_id id regions

unfoldable pub lookup_inferred : RegionGraph → ℕ → Option RegionId
unfolding lookup_id
lookup_inferred graph id = lookup_id id graph.sig_inferred
