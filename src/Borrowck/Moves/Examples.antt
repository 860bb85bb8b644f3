-- ===== src/Borrowck/Moves/Examples.antt =====
-- The theorems about moves at concrete places and statements, and runs of the analysis' steps.
use pocket_rust.Prelude.{All, ◌≡◌, ◌↔◌, refl, true, false, none, some, [], ◌∷◌}
use pocket_rust.Span.{Span}
use pocket_rust.Typeck.Types.{RType, int, u32, raw_ptr}
use pocket_rust.Borrowck.Graph.{new_graph}
use pocket_rust.Borrowck.Cfg.{
  Place, field, deref, move, use_operand, assign, CfgStmt, LocalDecl, Cfg, overlaps, is_prefix_of,
}
use pocket_rust.Borrowck.Moves.{status_of, MoveSet, moved, maybe_moved, empty, merge, mark, init}
use pocket_rust.Borrowck.Moves.Sets.{
  Readable, Outside, merge-Readable, mark-Readable, init-Readable,
}
use pocket_rust.Borrowck.Moves.Merge.{joined, merge-joined}
use pocket_rust.Borrowck.Moves.Transfer.{
  Effects, apply_stmt, apply_rvalue, apply_operand, is_through_raw_ptr_deref,
}
use pocket_rust.Borrowck.Moves.Snapshot.{
  apply_stmt_state_only, apply_rvalue_state_only, apply_operand_state_only,
}
use pocket_rust.Borrowck.Moves.Snapshot.Agrees.{apply_stmt-state_only}

abbrev whole_x : Place
whole_x = record { root = 1; projections = [] }

abbrev left_x : Place
left_x = record { root = 1; projections = field "left" ∷ [] }

abbrev behind : Place
behind = record { root = 1; projections = deref ∷ [] }

abbrev moved_left : MoveSet
moved_left = record { entries = (left_x, moved) ∷ [] }

merged : (merge moved_left empty).entries ≡ (left_x, maybe_moved) ∷ []
unfolding merge
merged = refl

merge-Readable_example :
    Readable (merge moved_left empty) whole_x
    ↔ (Readable moved_left whole_x × Readable empty whole_x)
merge-Readable_example = merge-Readable moved_left empty whole_x

mark-Readable_example :
    Readable (mark empty left_x moved) whole_x
    ↔ (Readable empty whole_x × (overlaps left_x whole_x ≡ false))
mark-Readable_example = mark-Readable empty left_x whole_x moved

merge-joined_example :
    status_of left_x (merge moved_left empty).entries
    ≡ joined (status_of left_x moved_left.entries) (status_of left_x empty.entries)
merge-joined_example = merge-joined moved_left empty left_x

init-Readable_example :
    Readable (init moved_left left_x) left_x ↔ All (λ e. Outside left_x e → ⊥) moved_left.entries
init-Readable_example = init-Readable moved_left left_x

abbrev nowhere : Span
nowhere = record { start = record { line = 1; col = 1 }; end = record { line = 1; col = 1 } }

-- `x0 = move place`
abbrev take : Place → CfgStmt
take place = record {
  kind =
      assign (record { root = 0; projections = [] })
        (use_operand (record { kind = move place; span = nowhere; node_id = none }));
  span = nowhere;
}

abbrev decl : RType → LocalDecl
decl ty = record { name = some "x"; ty = ty; span = nowhere; mutable = false; is_temp = false }

-- A function whose second local has the type.
abbrev holding : RType → Cfg
holding ty = record {
  blocks = [];
  locals = decl (int u32) ∷ decl ty ∷ [];
  entry = 0;
  region_count = 1;
  region_graph = new_graph;
  return_local = none;
  param_count = 0;
}

abbrev fresh : Effects
fresh = record { state = empty; errors = []; move_sites = [] }

apply_stmt-state_only_example :
    (apply_stmt (holding (int u32)) (λ ty. false) "lib.rs" (take left_x) fresh).state
    ≡ apply_stmt_state_only (take left_x) empty
unfolding is_through_raw_ptr_deref
apply_stmt-state_only_example =
    apply_stmt-state_only (holding (int u32)) (λ ty. false) "lib.rs" (take left_x) fresh refl

-- Through a raw pointer the two differ.
raw_full :
    (apply_stmt (holding (raw_ptr (int u32) true)) (λ ty. false) "lib.rs" (take behind) fresh).state
    ≡ empty
unfolding apply_stmt apply_rvalue apply_operand is_through_raw_ptr_deref init
raw_full = refl

raw_state_only : (apply_stmt_state_only (take behind) empty).entries ≡ (behind, moved) ∷ []
unfolding apply_stmt_state_only apply_rvalue_state_only apply_operand_state_only mark init
    is_prefix_of
raw_state_only = refl
