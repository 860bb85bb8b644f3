-- ===== src/Borrowck/Moves/Worklist/Examples.antt =====
-- A run of the move analysis on a graph with a loop, and its theorem there.
use pocket_rust.Prelude.{
  ◌≡◌, ◌⊎◌, refl, ℕ, zero, suc, Bool, true, false, none, some, [], ◌∷◌, for_each, for_range, arith,
}
use mathlib.Core.List.{Memᴰ}
use mathlib.Core.List.Memᴰ
use mathlib.Core.Logic.{⊎_elim}
use pocket_rust.Span.{Span}
use pocket_rust.Typeck.Types.{RType, int, u32}
use pocket_rust.Borrowck.Graph.{new_graph}
use pocket_rust.Borrowck.Cfg.{
  Place, place_eq, projections_eq, same_start, move, const_bool, Operand, OperandKind, use_operand,
  assign, storage_dead, CfgStmtKind, CfgStmt, goto, if_branch, return, LocalDecl, Cfg, overlaps,
  is_prefix_of,
}
use pocket_rust.Borrowck.Liveness.{successors, compute_predecessors}
use pocket_rust.Borrowck.Liveness.Preds.{InRange}
use pocket_rust.Borrowck.Moves.{
  maybe_moved, equal, merge, mark, init, check_readable, status_eq, max_status,
}
use pocket_rust.Borrowck.Moves.Transfer.{
  apply_stmt, apply_rvalue, apply_operand, is_through_raw_ptr_deref, move_traverses_borrow,
  check_read, apply_terminator_reads, apply_block_transfer,
}
use pocket_rust.Borrowck.Moves.Snapshot.{
  apply_stmt_state_only, apply_rvalue_state_only, apply_operand_state_only, compute_moved_locals,
}
use pocket_rust.Borrowck.Moves.Worklist.{
  Worklist, start, block_start, block_end, visit, Reached, started, visited, results,
}
use pocket_rust.Borrowck.Moves.Worklist.Settled.{Settled}
use pocket_rust.Borrowck.Moves.Worklist.Solved.{Reached-Settled}

abbrev nowhere : Span
nowhere = record { start = record { line = 1; col = 1 }; end = record { line = 1; col = 1 } }

abbrev stmt : CfgStmtKind → CfgStmt
stmt kind = record { kind = kind; span = nowhere }

abbrev whole : ℕ → Place
whole l = record { root = l; projections = [] }

abbrev operand : OperandKind → Operand
operand kind = record { kind = kind; span = nowhere; node_id = none }

abbrev decl : LocalDecl
decl = record { name = some "x"; ty = int u32; span = nowhere; mutable = false; is_temp = false }

-- `x0 = move x1; loop {}; dead(x1)`, where the loop may be left.
abbrev looping : Cfg
looping = record {
  blocks =
      record {
        stmts = stmt (assign (whole 0) (use_operand (operand (move (whole 1))))) ∷ [];
        terminator = goto 1;
      }
      ∷ record { stmts = []; terminator = if_branch (operand (const_bool true)) 1 2 }
      ∷ record { stmts = stmt (storage_dead 1) ∷ []; terminator = return }
      ∷ [];
  locals = decl ∷ decl ∷ [];
  entry = 0;
  region_count = 1;
  region_graph = new_graph;
  return_local = none;
  param_count = 0;
}

abbrev no_drop : RType → Bool
no_drop ty = false

-- As many rounds as are asked for, or as there is work.
abbrev rounds : ℕ → Worklist → Worklist
rounds zero w = w
rounds (suc n) w = elim w.work [
  | [] ↦ w
  | b ∷ work ↦ rounds n (visit looping no_drop "lib.rs" b work w)
]

-- The rounds come to an end, and the local that is moved before the loop is at the end one that may have
-- been moved.
moved_before_loop :
    let w = rounds 7 (start 3) in
    (w.work ≡ [])
    × ((results looping w).moved_locals ≡ record { local = 1; status = maybe_moved } ∷ [])
unfolding start for_range visit block_start compute_predecessors for_each successors block_end
    apply_block_transfer apply_stmt apply_rvalue apply_operand apply_terminator_reads
    is_through_raw_ptr_deref move_traverses_borrow check_read check_readable mark init merge equal
    status_eq max_status is_prefix_of overlaps results compute_moved_locals apply_stmt_state_only
    apply_rvalue_state_only apply_operand_state_only place_eq projections_eq same_start
moved_before_loop = (refl, refl)

InRange-looping : InRange looping
unfolding successors
InRange-looping zero s m =
    ⊎_elim (λ e. omega (arith, e)) (λ m'. absurd (Memᴰ.not-nil m')) (Memᴰ.cases_cons m)
InRange-looping (suc zero) s m =
    ⊎_elim (λ e. omega (arith, e))
      (λ m'. ⊎_elim (λ e. omega (arith, e)) (λ k. absurd (Memᴰ.not-nil k)) (Memᴰ.cases_cons m'))
      (Memᴰ.cases_cons m)
InRange-looping (suc (suc zero)) s m = absurd (Memᴰ.not-nil m)
InRange-looping (suc (suc (suc b))) s m = absurd (Memᴰ.not-nil m)

abbrev after_one : Worklist
after_one = visit looping no_drop "lib.rs" 2 (1 ∷ 0 ∷ []) (start 3)

one_round : Reached looping no_drop "lib.rs" after_one
unfolding start for_range
one_round = visited started refl

Reached-Settled_example :
    Memᴰ 2 after_one.work
    ⊎ Settled looping no_drop "lib.rs" after_one.block_in after_one.block_out 2
Reached-Settled_example =
    Reached-Settled looping no_drop "lib.rs" InRange-looping after_one one_round 2 (omega arith)
