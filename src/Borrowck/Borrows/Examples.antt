-- ===== src/Borrowck/Borrows/Examples.antt =====
-- The theorems about loans at a function that writes to a borrowed local, and runs of the analysis' steps.
use pocket_rust.Prelude.{
  ◌≡◌, ◌↔◌, refl, ◌<◌, zero, suc, true, false, none, List, [], ◌∷◌, length, get_or, All-Memᴰ,
  for_each, arith,
}
use mathlib.Core.List.{Memᴰ}
use mathlib.Core.List.Memᴰ
use pocket_rust.Span.{Span}
use pocket_rust.Typeck.Types.{RType, int, u32, ref, inferred}
use pocket_rust.Borrowck.Graph.{new_graph}
use pocket_rust.Borrowck.Cfg.{
  BlockId, LocalId, Place, OperandKind, copy, const_int, Operand, Rvalue, use_operand, borrow,
  CfgStmt, assign, return, LocalDecl, Cfg, overlaps, is_prefix_of, same_start, render,
}
use pocket_rust.Borrowck.Liveness.{LivenessAnalysis, block_at, successors}
use pocket_rust.Borrowck.Liveness.Uses.{StmtReads, TerminatorReads}
use pocket_rust.Borrowck.Liveness.Preds.{InRange}
use pocket_rust.Borrowck.Liveness.Bound.{LocalsInRange, enough}
use pocket_rust.Borrowck.Liveness.Flow.{Live, in_of}
use pocket_rust.Borrowck.Liveness.Fixpoint.{Finds, analyze-Finds}
use pocket_rust.Borrowck.Borrows.{
  ActiveBorrow, BorrowSet, empty, has_id, add_borrow, union_with, prune, contains, apply_rvalue,
  apply_operand_read, check_borrow, check_write, check_read_shared,
}
use pocket_rust.Borrowck.Borrows.LiveAfter.{
  compute_live_after_per_stmt, peel, transfer_stmt_backward, transfer_terminator_backward,
  mark_rvalue_uses, mark_operand_uses, insert_local,
}
use pocket_rust.Borrowck.Borrows.Transfer.{
  apply_stmt, apply_stmts, apply_block, add_loans, propagate, carried, collect_rvalue_source_locals,
  rtype_contains_ref,
}
use pocket_rust.Borrowck.Borrows.Sets.{Union, union_with-Union, prune-Live}
use pocket_rust.Borrowck.Borrows.Reports.Stmt.{FindsStmt, apply_stmt-Finds}
use pocket_rust.Borrowck.Borrows.Worklist.{start}

abbrev nowhere : Span
nowhere = record { start = record { line = 1; col = 1 }; end = record { line = 1; col = 1 } }

abbrev local : LocalId → Place
local l = record { root = l; projections = [] }

abbrev operand : OperandKind → Operand
operand kind = record { kind = kind; span = nowhere; node_id = none }

abbrev set_local : LocalId → Rvalue → CfgStmt
set_local l rvalue = record { kind = assign (local l) rvalue; span = nowhere }

abbrev decl : RType → LocalDecl
decl ty = record { name = none; ty = ty; span = nowhere; mutable = true; is_temp = true }

-- `r = &x`
abbrev lend : CfgStmt
lend = set_local 1 (borrow false (local 0) 0)

-- `x = 5`
abbrev overwrite : CfgStmt
overwrite = set_local 0 (use_operand (operand (const_int 5)))

-- `s = r`
abbrev copy_ref : CfgStmt
copy_ref = set_local 2 (use_operand (operand (copy (local 1))))

-- `r = &x; x = 5; s = r`
abbrev lending : Cfg
lending = record {
  blocks = record { stmts = lend ∷ overwrite ∷ copy_ref ∷ []; terminator = return } ∷ [];
  locals =
      decl (int u32)
      ∷ decl (ref (int u32) false (inferred 1))
      ∷ decl (ref (int u32) false (inferred 2))
      ∷ [];
  entry = 0;
  region_count = 1;
  region_graph = new_graph;
  return_local = none;
  param_count = 0;
}

abbrev loan_on : LocalId → ActiveBorrow
loan_on l = record { id = 0; place = local 0; mutable = false; dest = l; span = nowhere }

abbrev set_of : List ActiveBorrow → BorrowSet
set_of bs = record { borrows = bs }

abbrev no_live : LivenessAnalysis
no_live = record { block_in = []; block_out = [] }

-- The write is reported: the loan on `r` is active, since `r` is read behind it.
reported : length (apply_block (block_at lending 0) lending empty no_live 0 [] "a.rs").1 ≡ 1
unfolding apply_block apply_stmts apply_stmt apply_rvalue apply_operand_read check_borrow
    check_write check_read_shared add_loans propagate collect_rvalue_source_locals
    rtype_contains_ref carried prune contains compute_live_after_per_stmt peel
    transfer_stmt_backward transfer_terminator_backward mark_rvalue_uses mark_operand_uses
    insert_local overlaps is_prefix_of same_start for_each render
reported = refl

-- A copied loan is lost in a union, since it has the id of the original.
copy_lost : union_with empty (set_of (loan_on 1 ∷ loan_on 2 ∷ [])) ≡ set_of (loan_on 1 ∷ [])
unfolding union_with add_borrow has_id for_each
copy_lost = refl

union_with-Union_example :
    Union []
      (loan_on 1 ∷ loan_on 2 ∷ [])
      (union_with empty (set_of (loan_on 1 ∷ loan_on 2 ∷ []))).borrows
union_with-Union_example = union_with-Union empty (set_of (loan_on 1 ∷ loan_on 2 ∷ []))

apply_stmt-Finds_example :
    FindsStmt lending
      (set_of (loan_on 1 ∷ []))
      "a.rs"
      overwrite.kind
      overwrite.span
      (apply_stmt overwrite lending (set_of (loan_on 1 ∷ [])) [] "a.rs").0
      []
      (apply_stmt overwrite lending (set_of (loan_on 1 ∷ [])) [] "a.rs").1
apply_stmt-Finds_example = apply_stmt-Finds overwrite lending (set_of (loan_on 1 ∷ [])) [] "a.rs"

abbrev from_r : Rvalue
from_r = use_operand (operand (copy (local 1)))

InRange-lending : InRange lending
unfolding successors
InRange-lending zero s m = absurd (Memᴰ.not-nil m)
InRange-lending (suc b) s m = absurd (Memᴰ.not-nil m)

abbrev ReadsDeclared : LocalId → CfgStmt → Type 0
ReadsDeclared l stmt = StmtReads stmt.kind l → l < 3

lending_stmts :
    (b : BlockId) (stmt : CfgStmt) (l : LocalId)
    → Memᴰ stmt (block_at lending b).stmts
    → ReadsDeclared l stmt
lending_stmts zero stmt l m =
    All-Memᴰ (ReadsDeclared l) (block_at lending 0).stmts stmt
      (λ e. omega (arith, e), (λ r. absurd r, (λ e. omega (arith, e), tt))) m
lending_stmts (suc b) stmt l m = absurd (Memᴰ.not-nil m)

lending_terminators :
    (b : BlockId) (l : LocalId) → TerminatorReads (block_at lending b).terminator l → l < 3
lending_terminators zero l r = absurd r
lending_terminators (suc b) l r = absurd r

LocalsInRange-lending : LocalsInRange lending
LocalsInRange-lending = record { stmts = lending_stmts; terminators = lending_terminators }

live_of_lending : (r : LivenessAnalysis) × Finds lending r
live_of_lending =
    let (r, e, f) =
      analyze-Finds lending (enough lending) InRange-lending LocalsInRange-lending (omega arith) in
    (r, f)

prune-Live_example :
    Memᴰ
      (loan_on 1)
      (prune (set_of (loan_on 1 ∷ [])) (
        get_or
          (compute_live_after_per_stmt (block_at lending 0) (in_of (live_of_lending.0).block_out 0))
          1
          [])).borrows
    ↔ (Memᴰ (loan_on 1) (loan_on 1 ∷ []) × Live lending 1 (copy_ref ∷ []) return)
prune-Live_example =
    prune-Live lending live_of_lending.0 0 1 (set_of (loan_on 1 ∷ [])) (loan_on 1) live_of_lending.1
      (omega arith) (omega arith)

abbrev live : LivenessAnalysis
live = live_of_lending.0
