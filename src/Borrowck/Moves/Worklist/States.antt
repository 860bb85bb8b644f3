-- ===== src/Borrowck/Moves/Worklist/States.antt =====
-- The state behind a block does not depend on the errors and the move sites before it.
use pocket_rust.Prelude.{◌≡◌, ap, Bool, not, List, [], ◌∷◌, String, for_each, if◌then◌else◌}
use pocket_rust.Span.{Span}
use pocket_rust.Typeck.Types.{RType}
use pocket_rust.Borrowck.Cfg.{
  OperandKind, move, copy, const_int, const_bool, const_unit, const_str, Operand, unit, tuple,
  struct, Rvalue, use_operand, borrow, cast, call, struct_lit, tuple_lit, variant, builtin,
  discriminant, CfgStmtKind, assign, drop, storage_live, storage_dead, uninit as uninit_local,
  CfgStmt, Terminator, goto, if_branch, switch_int, return, unreachable, BasicBlock, Cfg,
}
use pocket_rust.Borrowck.Moves.{moved, uninit, mark, init}
use pocket_rust.Borrowck.Moves.Transfer.{
  Effects, is_through_raw_ptr_deref, operand_kind, apply_operand, apply_all, apply_fields,
  apply_rvalue, stmt_kind, apply_stmt, apply_terminator_reads, apply_block_transfer,
}

-- The two have the same state.
abbrev SameState : Effects → Effects → Type 0
SameState e e' = e.state ≡ e'.state

module _ (cfg : Cfg) (is_drop : RType → Bool) (file : String) where
  -- A function that keeps states the same.
  abbrev Keeps : (Effects → Effects) → Type 0
  Keeps f = (e e' : Effects) → SameState e e' → SameState (f e) (f e')

  each-Keeps {ℓ} :
      {A : Type ℓ} (f : Effects → A → Effects) (xs : List A)
      → ((x : A) → Keeps (λ e. f e x))
      → Keeps (λ e. for_each f e xs)
  unfolding for_each
  each-Keeps f [] k e e' h = h
  each-Keeps f (x ∷ xs) k e e' h = each-Keeps f xs k (f e x) (f e' x) (k x e e' h)

  operand_kind-Keeps :
      (kind : OperandKind) (op : Operand) → Keeps (operand_kind cfg is_drop file kind op)
  operand_kind-Keeps (move place) op e e' h =
      ap (λ s. if not (is_through_raw_ptr_deref place cfg) then mark s place moved else s) h
  operand_kind-Keeps (copy place) op e e' h = h
  operand_kind-Keeps (const_int n) op e e' h = h
  operand_kind-Keeps (const_bool b) op e e' h = h
  operand_kind-Keeps const_unit op e e' h = h
  operand_kind-Keeps (const_str s) op e e' h = h

  operand-Keeps : (op : Operand) → Keeps (apply_operand cfg is_drop file op)
  unfolding apply_operand
  operand-Keeps op = operand_kind-Keeps op.kind op

  all-Keeps : (ops : List Operand) → Keeps (apply_all cfg is_drop file ops)
  unfolding apply_all
  all-Keeps ops = each-Keeps (λ e op. apply_operand cfg is_drop file op e) ops operand-Keeps

  fields-Keeps : (fields : List (String × Operand)) → Keeps (apply_fields cfg is_drop file fields)
  unfolding apply_fields
  fields-Keeps fields =
      each-Keeps (λ e f. apply_operand cfg is_drop file f.1 e) fields (λ f. operand-Keeps f.1)

  rvalue-Keeps : (rv : Rvalue) (span : Span) → Keeps (apply_rvalue cfg is_drop file rv span)
  unfolding apply_rvalue
  rvalue-Keeps (use_operand op) span = operand-Keeps op
  rvalue-Keeps (borrow mutable place region) span = λ e e' h. h
  rvalue-Keeps (cast source target_ty) span = operand-Keeps source
  rvalue-Keeps (call callee args id) span = all-Keeps args
  rvalue-Keeps (struct_lit p type_args fields) span = fields-Keeps fields
  rvalue-Keeps (tuple_lit ops) span = all-Keeps ops
  rvalue-Keeps (variant p type_args disc unit) span = λ e e' h. h
  rvalue-Keeps (variant p type_args disc (tuple ops)) span = all-Keeps ops
  rvalue-Keeps (variant p type_args disc (struct fields)) span = fields-Keeps fields
  rvalue-Keeps (builtin name args) span = all-Keeps args
  rvalue-Keeps (discriminant place) span = λ e e' h. h

  kind-Keeps : (k : CfgStmtKind) (span : Span) → Keeps (stmt_kind cfg is_drop file k span)
  kind-Keeps (assign place rv) span e e' h = ap (λ s. init s place) (rvalue-Keeps rv span e e' h)
  kind-Keeps (drop place) span e e' h = h
  kind-Keeps (uninit_local l) span e e' h =
      ap (λ s. mark s (record { root = l; projections = [] }) uninit) h
  kind-Keeps (storage_live l) span e e' h = h
  kind-Keeps (storage_dead l) span e e' h = h

  stmt-Keeps : (stmt : CfgStmt) → Keeps (apply_stmt cfg is_drop file stmt)
  unfolding apply_stmt
  stmt-Keeps stmt = kind-Keeps stmt.kind stmt.span

  terminator-Keeps : (t : Terminator) → Keeps (apply_terminator_reads cfg is_drop file t)
  unfolding apply_terminator_reads
  terminator-Keeps (goto b) e e' h = h
  terminator-Keeps (if_branch cond then_block else_block) e e' h = operand-Keeps cond e e' h
  terminator-Keeps (switch_int op targets otherwise) e e' h = operand-Keeps op e e' h
  terminator-Keeps return e e' h = h
  terminator-Keeps unreachable e e' h = h

  pub block-Keeps :
      (block : BasicBlock) (e e' : Effects)
      → e.state ≡ e'.state
      → (apply_block_transfer cfg is_drop file block e).state
        ≡ (apply_block_transfer cfg is_drop file block e').state
  unfolding apply_block_transfer
  block-Keeps block e e' h =
      terminator-Keeps block.terminator _ _
        (each-Keeps (λ e stmt. apply_stmt cfg is_drop file stmt e) block.stmts stmt-Keeps e e' h)
