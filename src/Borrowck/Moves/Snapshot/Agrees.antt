-- ===== src/Borrowck/Moves/Snapshot/Agrees.antt =====
-- The effects on the state alone agree with the full ones where no move goes through a raw pointer.
use pocket_rust.Prelude.{Bool, false, ◌≡◌, refl, ap, ◌∙◌, List, [], ◌∷◌, String, for_each}
use pocket_rust.Span.{Span}
use pocket_rust.Typeck.Types.{RType}
use pocket_rust.Borrowck.Cfg.{
  OperandKind, move, copy, const_int, const_bool, const_unit, const_str, Operand, unit, tuple,
  struct, Rvalue, use_operand, borrow, cast, call, struct_lit, tuple_lit, variant, builtin,
  discriminant, CfgStmtKind, assign, drop, storage_live, storage_dead, uninit as uninit_local,
  CfgStmt, Cfg,
}
use pocket_rust.Borrowck.Moves.{init}
use pocket_rust.Borrowck.Moves.Transfer.{
  Effects, is_through_raw_ptr_deref, apply_operand, apply_all, apply_fields, apply_rvalue,
  apply_stmt,
}
use pocket_rust.Borrowck.Moves.Snapshot.{
  apply_operand_state_only, operand_kind_state_only, all_state_only, fields_state_only,
  apply_rvalue_state_only, kind_state_only, apply_stmt_state_only,
}

-- The operand is no move through a raw pointer.
abbrev TracksOperand : Cfg → OperandKind → Type 0
TracksOperand cfg (move p) = is_through_raw_ptr_deref p cfg ≡ false
TracksOperand cfg _ = Unit

abbrev TracksAll : Cfg → List Operand → Type 0
TracksAll cfg [] = Unit
TracksAll cfg (op ∷ ops) = TracksOperand cfg op.kind × TracksAll cfg ops

abbrev TracksFields : Cfg → List (String × Operand) → Type 0
TracksFields cfg [] = Unit
TracksFields cfg (f ∷ fields) = TracksOperand cfg f.1.kind × TracksFields cfg fields

abbrev TracksRvalue : Cfg → Rvalue → Type 0
TracksRvalue cfg (use_operand op) = TracksOperand cfg op.kind
TracksRvalue cfg (cast source target_ty) = TracksOperand cfg source.kind
TracksRvalue cfg (call callee args id) = TracksAll cfg args
TracksRvalue cfg (builtin name args) = TracksAll cfg args
TracksRvalue cfg (struct_lit p type_args fields) = TracksFields cfg fields
TracksRvalue cfg (tuple_lit ops) = TracksAll cfg ops
TracksRvalue cfg (variant p type_args disc unit) = Unit
TracksRvalue cfg (variant p type_args disc (tuple ops)) = TracksAll cfg ops
TracksRvalue cfg (variant p type_args disc (struct fields)) = TracksFields cfg fields
TracksRvalue cfg (borrow mutable place region) = Unit
TracksRvalue cfg (discriminant place) = Unit

-- No operand of the statement is a move through a raw pointer.
abbrev pub TracksStmt : Cfg → CfgStmtKind → Type 0
TracksStmt cfg (assign place rvalue) = TracksRvalue cfg rvalue
TracksStmt cfg _ = Unit

module _ (cfg : Cfg) (is_drop : RType → Bool) (file : String) where
  operand-agrees :
      (op : Operand) (k : OperandKind) (e : Effects)
      → op.kind ≡ k
      → TracksOperand cfg k
      → (apply_operand cfg is_drop file op e).state ≡ operand_kind_state_only k e.state
  unfolding apply_operand
  operand-agrees op (move p) e h t = rw h (rw t refl)
  operand-agrees op (copy p) e h t = rw h refl
  operand-agrees op (const_int n) e h t = rw h refl
  operand-agrees op (const_bool b) e h t = rw h refl
  operand-agrees op const_unit e h t = rw h refl
  operand-agrees op (const_str s) e h t = rw h refl

  all-agrees :
      (ops : List Operand) (e : Effects)
      → TracksAll cfg ops
      → (apply_all cfg is_drop file ops e).state ≡ all_state_only ops e.state
  unfolding apply_all all_state_only for_each apply_operand_state_only
  all-agrees [] e t = refl
  all-agrees (op ∷ ops) e t =
      all-agrees ops (apply_operand cfg is_drop file op e) t.1
      ∙ ap (λ s. all_state_only ops s) (operand-agrees op op.kind e refl t.0)

  fields-agree :
      (fields : List (String × Operand)) (e : Effects)
      → TracksFields cfg fields
      → (apply_fields cfg is_drop file fields e).state ≡ fields_state_only fields e.state
  unfolding apply_fields fields_state_only for_each apply_operand_state_only
  fields-agree [] e t = refl
  fields-agree (f ∷ fields) e t =
      fields-agree fields (apply_operand cfg is_drop file f.1 e) t.1
      ∙ ap (λ s. fields_state_only fields s) (operand-agrees f.1 f.1.kind e refl t.0)

  rvalue-agrees :
      (rv : Rvalue) (span : Span) (e : Effects)
      → TracksRvalue cfg rv
      → (apply_rvalue cfg is_drop file rv span e).state ≡ apply_rvalue_state_only rv e.state
  unfolding apply_rvalue apply_rvalue_state_only apply_operand_state_only
  rvalue-agrees (use_operand op) span e t = operand-agrees op op.kind e refl t
  rvalue-agrees (cast source target_ty) span e t = operand-agrees source source.kind e refl t
  rvalue-agrees (call callee args id) span e t = all-agrees args e t
  rvalue-agrees (builtin name args) span e t = all-agrees args e t
  rvalue-agrees (struct_lit p type_args fields) span e t = fields-agree fields e t
  rvalue-agrees (tuple_lit ops) span e t = all-agrees ops e t
  rvalue-agrees (variant p type_args disc unit) span e t = refl
  rvalue-agrees (variant p type_args disc (tuple ops)) span e t = all-agrees ops e t
  rvalue-agrees (variant p type_args disc (struct fields)) span e t = fields-agree fields e t
  rvalue-agrees (borrow mutable place region) span e t = refl
  rvalue-agrees (discriminant place) span e t = refl

  kind-agrees :
      (stmt : CfgStmt) (k : CfgStmtKind) (e : Effects)
      → stmt.kind ≡ k
      → TracksStmt cfg k
      → (apply_stmt cfg is_drop file stmt e).state ≡ kind_state_only k e.state
  unfolding apply_stmt
  kind-agrees stmt (assign place rvalue) e h t =
      rw h (ap (λ s. init s place) (rvalue-agrees rvalue stmt.span e t))
  kind-agrees stmt (drop place) e h t = rw h refl
  kind-agrees stmt (storage_live l) e h t = rw h refl
  kind-agrees stmt (storage_dead l) e h t = rw h refl
  kind-agrees stmt (uninit_local l) e h t = rw h refl

  -- The lightweight version of `apply_stmt` computes the state that `apply_stmt` computes, where no operand of
  -- the statement is a move through a raw pointer.
  pub apply_stmt-state_only :
      (stmt : CfgStmt) (e : Effects)
      → TracksStmt cfg stmt.kind
      → (apply_stmt cfg is_drop file stmt e).state ≡ apply_stmt_state_only stmt e.state
  unfolding apply_stmt_state_only
  apply_stmt-state_only stmt e t = kind-agrees stmt stmt.kind e refl t
