-- ===== src/Borrowck/Borrows/LiveAfter.antt =====
-- src/borrowck/borrows.rs: the locals that are live after each statement, by which loans are pruned.
pub mod Uses
pub mod Exact
use pocket_rust.Prelude.{
  not, ◌==◌, List, [], ◌∷◌, String, if◌then◌else◌, is_empty, push, retain, for_each,
}
use pocket_rust.Borrowck.Cfg
use pocket_rust.Borrowck.Cfg.{
  BlockId, LocalId, Place, OperandKind, move, copy, Operand, Rvalue, use_operand, borrow, cast,
  call, struct_lit, tuple_lit, variant, builtin, discriminant, CfgStmtKind, assign, drop, CfgStmt,
  BasicBlock, LocalDecl, Cfg, overlaps, render,
}
use pocket_rust.Borrowck.Cfg.{storage_live, storage_dead, uninit, Terminator, if_branch, switch_int}
use pocket_rust.Borrowck.Borrows.{contains}
use pocket_rust.Borrowck.Liveness.{LiveSet}

unfoldable pub insert_local : List LocalId → LocalId → List LocalId
insert_local state l = if not (contains state l) then push state l else state

abbrev pub use_kind : OperandKind → List LocalId → List LocalId
use_kind (move p) state = insert_local state p.root
use_kind (copy p) state = insert_local state p.root
use_kind _ state = state

unfoldable pub mark_operand_uses : Operand → List LocalId → List LocalId
mark_operand_uses op state = use_kind op.kind state

unfoldable pub mark_all : List Operand → List LocalId → List LocalId
mark_all ops state = for_each (λ state op. mark_operand_uses op state) state ops

unfoldable pub mark_fields : List (String × Operand) → List LocalId → List LocalId
mark_fields fields state = for_each (λ state field. mark_operand_uses field.1 state) state fields

unfoldable pub mark_rvalue_uses : Rvalue → List LocalId → List LocalId
mark_rvalue_uses (use_operand op) state = mark_operand_uses op state
mark_rvalue_uses (borrow mutable place region) state = insert_local state place.root
mark_rvalue_uses (cast source target_ty) state = mark_operand_uses source state
mark_rvalue_uses (call callee args id) state = mark_all args state
mark_rvalue_uses (struct_lit p type_args fields) state = mark_fields fields state
mark_rvalue_uses (tuple_lit ops) state = mark_all ops state
mark_rvalue_uses (variant p type_args disc Cfg.unit) state = state
mark_rvalue_uses (variant p type_args disc (Cfg.tuple ops)) state = mark_all ops state
mark_rvalue_uses (variant p type_args disc (Cfg.struct fields)) state = mark_fields fields state
mark_rvalue_uses (builtin name args) state = mark_all args state
mark_rvalue_uses (discriminant p) state = insert_local state p.root

abbrev pub kind_backward : CfgStmtKind → List LocalId → List LocalId
kind_backward (assign place rvalue) state =
    let state =
      if is_empty place.projections then retain (λ x. not (x == place.root)) state else state in
    mark_rvalue_uses rvalue state
kind_backward (drop place) state = insert_local state place.root
kind_backward _ state = state

unfoldable pub transfer_stmt_backward : CfgStmt → List LocalId → List LocalId
transfer_stmt_backward stmt state = kind_backward stmt.kind state

unfoldable pub transfer_terminator_backward : Terminator → List LocalId → List LocalId
transfer_terminator_backward (if_branch cond then_block else_block) state =
    mark_operand_uses cond state
transfer_terminator_backward (switch_int operand targets otherwise) state =
    mark_operand_uses operand state
transfer_terminator_backward _ state = state

-- The state after each statement, and the state before the first one. The last step of the recursion
-- goes past the first statement, where the loop of the source stops, and its state is not used.
unfoldable pub peel : List CfgStmt → List LocalId → List (List LocalId) × List LocalId
peel [] state = ([], state)
peel (stmt ∷ stmts) state =
    let (result, after) = peel stmts state in (after ∷ result, transfer_stmt_backward stmt after)

unfoldable pub compute_live_after_per_stmt : BasicBlock → LiveSet → List (List LocalId)
compute_live_after_per_stmt block live_out =
    (peel block.stmts (transfer_terminator_backward block.terminator live_out.locals)).0
