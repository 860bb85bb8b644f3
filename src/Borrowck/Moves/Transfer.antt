-- ===== src/Borrowck/Moves/Transfer.antt =====
-- The effects of statements and terminators in src/borrowck/moves.rs, and the snapshot at the end of scopes.
use pocket_rust.Prelude.{
  Bool, true, false, not, ◌&&◌, Option, none, some, List, [], ◌∷◌, String, ◌+++◌, if◌then◌else◌,
  get_elem?, push, any, for_each, is_empty,
}
use pocket_rust.Span.{Span, Error}
use pocket_rust.Typeck.Types.{RType, ref, raw_ptr}
use pocket_rust.Borrowck.Cfg.{
  LocalId, NodeId, Place, Projection, field, tuple_index, deref, render, OperandKind, move, copy,
  Operand, unit, tuple, struct as struct_fields, Rvalue, use_operand, borrow, cast, call,
  struct_lit, tuple_lit, variant, builtin, discriminant, CfgStmtKind, assign, drop, storage_live,
  storage_dead, uninit as uninit_local, CfgStmt, Terminator, if_branch, switch_int, BasicBlock,
  LocalDecl, Cfg,
}
use pocket_rust.Borrowck.Moves.{
  MoveStatus, moved, maybe_moved, uninit, MoveSet, check_readable, mark, init,
}

-- The variables that the transfer functions change.
pub record Effects : Type 0 where
  pub state : MoveSet
  pub errors : List Error
  pub move_sites : List (NodeId × String)

abbrev whole : LocalId → Place
whole l = record { root = l; projections = [] }

abbrev pub is_deref : Projection → Bool
is_deref deref = true
is_deref _ = false

abbrev is_raw : RType → Bool
is_raw (raw_ptr inner mutable) = true
is_raw _ = false

abbrev is_ref : RType → Bool
is_ref (ref inner mutable lifetime) = true
is_ref _ = false

-- `cfg.locals[l]` for a test; the program stops at a local out of range.
abbrev local_test : (LocalDecl → Bool) → Option LocalDecl → Bool
local_test test (some decl) = test decl
local_test test none = false

unfoldable pub is_through_raw_ptr_deref : Place → Cfg → Bool
is_through_raw_ptr_deref place cfg =
    if not (any is_deref place.projections)
    then false
    else local_test (λ decl. is_raw decl.ty) (get_elem? cfg.locals place.root)

abbrev is_single_step : List Projection → Bool
is_single_step (field f ∷ []) = true
is_single_step (tuple_index i ∷ []) = true
is_single_step _ = false

unfoldable pub move_traverses_borrow : Place → Cfg → Bool
move_traverses_borrow place cfg =
    if not (is_single_step place.projections)
    then false
    else local_test (λ decl. is_ref decl.ty) (get_elem? cfg.locals place.root)

abbrev status_message : MoveStatus → String → String
status_message moved rendered = rendered +++ " was already moved"
status_message maybe_moved rendered = rendered +++ " was already moved (on some paths)"
status_message uninit rendered = "use of uninitialized binding " +++ rendered

abbrev read_error : Option MoveStatus → Place → Span → Cfg → String → List Error → List Error
read_error none place span cfg file errors = errors
read_error (some status) place span cfg file errors =
    let rendered = "`" +++ render place cfg.locals +++ "`" in
    push errors (record { file = file; message = status_message status rendered; span = span })

unfoldable pub check_read : MoveSet → Place → Span → List Error → Cfg → String → List Error
check_read state place span errors cfg file =
    read_error (check_readable state place) place span cfg file errors

-- The name under which a whole-binding move is recorded.
abbrev site_name : Option LocalDecl → Option String
site_name (some decl) = if not decl.is_temp then decl.name else none
site_name none = none

abbrev record_site : Option NodeId → Option String → List (NodeId × String) → List (NodeId × String)
record_site (some nid) (some name) sites = push sites (nid, name)
record_site _ _ sites = sites

-- `is_drop` of the trait table is a parameter.
module _ (cfg : Cfg) (is_drop : RType → Bool) (file : String) where
  abbrev pub move_place : Operand → Place → Effects → Effects
  move_place op place e =
      let errors = check_read e.state place op.span e.errors cfg file in
      let errors =
        if not (is_through_raw_ptr_deref place cfg) && move_traverses_borrow place cfg
        then push errors (record {
          file = file;
          message =
              "cannot move out of borrow: `"
              +++ render place cfg.locals
              +++ "` is reachable only through a reference";
          span = op.span;
        })
        else errors in
      let errors =
        if not (is_empty place.projections)
          && local_test (λ decl. is_drop decl.ty) (get_elem? cfg.locals place.root)
        then push errors (record {
          file = file;
          message =
              "cannot move out of `" +++ render place cfg.locals +++ "`: type implements `Drop`";
          span = op.span;
        })
        else errors in
      let sites =
        if is_empty place.projections
        then record_site op.node_id (site_name (get_elem? cfg.locals place.root)) e.move_sites
        else e.move_sites in
      record {
        state =
            if not (is_through_raw_ptr_deref place cfg) then mark e.state place moved else e.state;
        errors = errors;
        move_sites = sites;
      }

  abbrev pub read_place : Place → Span → Effects → Effects
  read_place place span e = record {
    state = e.state;
    errors = check_read e.state place span e.errors cfg file;
    move_sites = e.move_sites;
  }

  abbrev pub operand_kind : OperandKind → Operand → Effects → Effects
  operand_kind (move place) op e = move_place op place e
  operand_kind (copy place) op e = read_place place op.span e
  operand_kind _ op e = e

  unfoldable pub apply_operand : Operand → Effects → Effects
  apply_operand op e = operand_kind op.kind op e

  unfoldable pub apply_all : List Operand → Effects → Effects
  apply_all ops e = for_each (λ e op. apply_operand op e) e ops

  unfoldable pub apply_fields : List (String × Operand) → Effects → Effects
  apply_fields fields e = for_each (λ e f. apply_operand f.1 e) e fields

  unfoldable pub apply_rvalue : Rvalue → Span → Effects → Effects
  apply_rvalue (use_operand op) span e = apply_operand op e
  apply_rvalue (borrow mutable place region) span e = read_place place span e
  apply_rvalue (cast source target_ty) span e = apply_operand source e
  apply_rvalue (call callee args id) span e = apply_all args e
  apply_rvalue (struct_lit p type_args fields) span e = apply_fields fields e
  apply_rvalue (tuple_lit ops) span e = apply_all ops e
  apply_rvalue (variant p type_args disc unit) span e = e
  apply_rvalue (variant p type_args disc (tuple ops)) span e = apply_all ops e
  apply_rvalue (variant p type_args disc (struct_fields fields)) span e = apply_fields fields e
  apply_rvalue (builtin name args) span e = apply_all args e
  apply_rvalue (discriminant place) span e = read_place place span e

  abbrev pub with_state : Effects → MoveSet → Effects
  with_state e state = record { state = state; errors = e.errors; move_sites = e.move_sites }

  abbrev pub stmt_kind : CfgStmtKind → Span → Effects → Effects
  stmt_kind (assign place rvalue) span e =
      let e = apply_rvalue rvalue span e in with_state e (init e.state place)
  stmt_kind (drop place) span e = read_place place span e
  stmt_kind (uninit_local l) span e = with_state e (mark e.state (whole l) uninit)
  stmt_kind (storage_live l) span e = e
  stmt_kind (storage_dead l) span e = e

  unfoldable pub apply_stmt : CfgStmt → Effects → Effects
  apply_stmt stmt e = stmt_kind stmt.kind stmt.span e

  unfoldable pub apply_terminator_reads : Terminator → Effects → Effects
  apply_terminator_reads (if_branch cond then_block else_block) e = apply_operand cond e
  apply_terminator_reads (switch_int op targets otherwise) e = apply_operand op e
  apply_terminator_reads _ e = e

  unfoldable pub apply_block_transfer : BasicBlock → Effects → Effects
  apply_block_transfer block e =
      apply_terminator_reads block.terminator (for_each (λ e stmt. apply_stmt stmt e) e block.stmts)
