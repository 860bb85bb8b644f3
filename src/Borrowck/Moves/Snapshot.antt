-- ===== src/Borrowck/Moves/Snapshot.antt =====
-- `compute_moved_locals` of src/borrowck/moves.rs, and the effects it applies to the state alone.
pub mod Agrees
use pocket_rust.Prelude.{
  ℕ, Bool, true, false, not, ◌&&◌, Option, none, some, List, [], ◌∷◌, String, ◌==◌, if◌then◌else◌,
  length, get_elem?, get_or, push, any, for_each, for_range,
}
use pocket_rust.Borrowck.Cfg.{
  BlockId, LocalId, Place, OperandKind, move, Operand, VariantFields, unit, tuple, struct, Rvalue,
  use_operand, borrow, cast, call, struct_lit, tuple_lit, variant, builtin, discriminant,
  CfgStmtKind, assign, storage_dead, uninit as uninit_local, CfgStmt, Terminator, if_branch,
  switch_int, unreachable, BasicBlock, LocalDecl, Cfg,
}
use pocket_rust.Borrowck.Moves.{
  MoveStatus, moved, uninit, MoveSet, empty, check_readable, mark, init,
}

abbrev pub operand_kind_state_only : OperandKind → MoveSet → MoveSet
operand_kind_state_only (move p) state = mark state p moved
operand_kind_state_only _ state = state

unfoldable pub apply_operand_state_only : Operand → MoveSet → MoveSet
apply_operand_state_only op state = operand_kind_state_only op.kind state

unfoldable pub all_state_only : List Operand → MoveSet → MoveSet
all_state_only ops state = for_each (λ state op. apply_operand_state_only op state) state ops

unfoldable pub fields_state_only : List (String × Operand) → MoveSet → MoveSet
fields_state_only fields state =
    for_each (λ state f. apply_operand_state_only f.1 state) state fields

unfoldable pub apply_rvalue_state_only : Rvalue → MoveSet → MoveSet
apply_rvalue_state_only (use_operand op) state = apply_operand_state_only op state
apply_rvalue_state_only (cast source target_ty) state = apply_operand_state_only source state
apply_rvalue_state_only (call callee args id) state = all_state_only args state
apply_rvalue_state_only (builtin name args) state = all_state_only args state
apply_rvalue_state_only (struct_lit p type_args fields) state = fields_state_only fields state
apply_rvalue_state_only (tuple_lit ops) state = all_state_only ops state
apply_rvalue_state_only (variant p type_args disc unit) state = state
apply_rvalue_state_only (variant p type_args disc (tuple ops)) state = all_state_only ops state
apply_rvalue_state_only (variant p type_args disc (struct fields)) state =
    fields_state_only fields state
apply_rvalue_state_only (borrow mutable place region) state = state
apply_rvalue_state_only (discriminant place) state = state

abbrev pub whole : LocalId → Place
whole l = record { root = l; projections = [] }

abbrev pub kind_state_only : CfgStmtKind → MoveSet → MoveSet
kind_state_only (assign place rvalue) state = init (apply_rvalue_state_only rvalue state) place
kind_state_only (uninit_local l) state = mark state (whole l) uninit
kind_state_only _ state = state

unfoldable pub apply_stmt_state_only : CfgStmt → MoveSet → MoveSet
apply_stmt_state_only stmt state = kind_state_only stmt.kind state

unfoldable pub apply_terminator_state_only : Terminator → MoveSet → MoveSet
apply_terminator_state_only (if_branch cond then_block else_block) state =
    apply_operand_state_only cond state
apply_terminator_state_only (switch_int op targets otherwise) state =
    apply_operand_state_only op state
apply_terminator_state_only _ state = state

pub record MovedLocal : Type 0 where
  pub local : LocalId
  pub status : MoveStatus

abbrev is_named : Option LocalDecl → Bool
is_named none = false
is_named (some decl) = elim decl.name [ none ↦ false | some n ↦ not decl.is_temp ]

abbrev record_moved : LocalId → Option MoveStatus → List MovedLocal → List MovedLocal
record_moved l none out = out
record_moved l (some status) out =
    if not (any (λ e. e.local == l) out)
    then push out (record { local = l; status = status })
    else out

-- What a statement adds to the list, before its effect.
abbrev at_scope_end : Cfg → MoveSet → CfgStmtKind → List MovedLocal → List MovedLocal
at_scope_end cfg state (storage_dead l) out =
    if is_named (get_elem? cfg.locals l)
    then record_moved l (check_readable state (whole l)) out
    else out
at_scope_end cfg state _ out = out

abbrev snapshot_stmt : Cfg → List MovedLocal × MoveSet → CfgStmt → List MovedLocal × MoveSet
snapshot_stmt cfg (out, state) stmt =
    (at_scope_end cfg state stmt.kind out, apply_stmt_state_only stmt state)

-- The terminator's effect on the state of a block goes with the state at the end of its round.
unfoldable pub compute_moved_locals : Cfg → List MoveSet → List MovedLocal
compute_moved_locals cfg block_in =
    for_range (length cfg.blocks) 0
      (λ b out.
        (for_each (snapshot_stmt cfg) (out, get_or block_in b empty)
          (get_or cfg.blocks b (record { stmts = []; terminator = unreachable })).stmts).0)
      []
