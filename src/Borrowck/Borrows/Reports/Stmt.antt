-- ===== src/Borrowck/Borrows/Reports/Stmt.antt =====
-- A statement reports exactly the conflicts of its accesses.
use pocket_rust.Prelude.{◌⊎◌, inl, inr, List, [], ◌∷◌, String, for_each}
use pocket_rust.Span.{Span, Error}
use pocket_rust.Borrowck.Cfg.{
  OperandKind, move, copy, const_int, const_bool, const_unit, const_str, Operand, unit, tuple,
  struct, Rvalue, use_operand, borrow, cast, call, struct_lit, tuple_lit, variant, builtin,
  discriminant, CfgStmtKind, assign, drop, storage_live, storage_dead, uninit, CfgStmt, Cfg,
}
use pocket_rust.Borrowck.Borrows.{
  BorrowSet, read_kind, apply_operand_read, read_all, read_fields, apply_rvalue, check_write,
}
use pocket_rust.Borrowck.Borrows.Transfer.{add_loans, stmt_kind, apply_stmt}
use pocket_rust.Borrowck.Borrows.Reports.{
  reading, moving, writing, Access, Free, Reports, Reports-nothing, Reports-then, Blames, Finds,
  Finds-nothing, Finds-then,
}
use pocket_rust.Borrowck.Borrows.Reports.Checks.{
  One, lending, check_write-Finds, check_move-Finds, check_read_shared-Finds, check_borrow-Finds,
}

-- What an operand, a value and a statement access.
abbrev OperandAccess : OperandKind → Span → Access → Type 0
OperandAccess (move p) span a = One moving p span a
OperandAccess (copy p) span a = One reading p span a
OperandAccess _ span a = ⊥

abbrev SomeAccess : List Operand → Access → Type 0
SomeAccess [] a = ⊥
SomeAccess (op ∷ ops) a = OperandAccess op.kind op.span a ⊎ SomeAccess ops a

abbrev FieldAccess : List (String × Operand) → Access → Type 0
FieldAccess [] a = ⊥
FieldAccess ((name, op) ∷ fields) a = OperandAccess op.kind op.span a ⊎ FieldAccess fields a

abbrev pub RvalueAccess : Rvalue → Span → Access → Type 0
RvalueAccess (use_operand op) span a = OperandAccess op.kind op.span a
RvalueAccess (borrow mutable place region) span a = One (lending mutable) place span a
RvalueAccess (cast source target_ty) span a = OperandAccess source.kind source.span a
RvalueAccess (call callee args id) span a = SomeAccess args a
RvalueAccess (struct_lit p type_args fields) span a = FieldAccess fields a
RvalueAccess (tuple_lit ops) span a = SomeAccess ops a
RvalueAccess (variant p type_args disc unit) span a = ⊥
RvalueAccess (variant p type_args disc (tuple ops)) span a = SomeAccess ops a
RvalueAccess (variant p type_args disc (struct fields)) span a = FieldAccess fields a
RvalueAccess (builtin name args) span a = SomeAccess args a
RvalueAccess (discriminant place) span a = One reading place span a

-- Before the loans of the statement are added, and after it.
abbrev pub AccessBefore : CfgStmtKind → Span → Access → Type 0
AccessBefore (assign place rvalue) span a = RvalueAccess rvalue span a
AccessBefore _ span a = ⊥

abbrev pub AccessAfter : CfgStmtKind → Span → Access → Type 0
AccessAfter (assign place rvalue) span a = One writing place span a
AccessAfter (drop place) span a = One writing place span a
AccessAfter _ span a = ⊥

module _ (cfg : Cfg) (state : BorrowSet) (file : String) where
  operand-Finds :
      (k : OperandKind) (span : Span) (errors : List Error)
      → Finds cfg file state (OperandAccess k span) errors (read_kind k span cfg state errors file)
  operand-Finds (move p) span errors = check_move-Finds p state span errors cfg file
  operand-Finds (copy p) span errors = check_read_shared-Finds p state span errors cfg file
  operand-Finds (const_int n) span errors = Finds-nothing cfg file state (λ a. ⊥) errors (λ a h. h)
  operand-Finds (const_bool b) span errors = Finds-nothing cfg file state (λ a. ⊥) errors (λ a h. h)
  operand-Finds const_unit span errors = Finds-nothing cfg file state (λ a. ⊥) errors (λ a h. h)
  operand-Finds (const_str t) span errors = Finds-nothing cfg file state (λ a. ⊥) errors (λ a h. h)

  all-Finds :
      (ops : List Operand) (errors : List Error)
      → Finds cfg file state (SomeAccess ops) errors (read_all ops cfg state errors file)
  unfolding read_all for_each apply_operand_read
  all-Finds [] errors = Finds-nothing cfg file state (λ a. ⊥) errors (λ a h. h)
  all-Finds (op ∷ ops) errors =
      let first = read_kind op.kind op.span cfg state errors file in
      Finds-then cfg file state (OperandAccess op.kind op.span) (SomeAccess ops) errors first
        (read_all ops cfg state first file) (operand-Finds op.kind op.span errors)
        (all-Finds ops first)

  fields-Finds :
      (fields : List (String × Operand)) (errors : List Error)
      → Finds cfg file state (FieldAccess fields) errors (read_fields fields cfg state errors file)
  unfolding read_fields for_each apply_operand_read
  fields-Finds [] errors = Finds-nothing cfg file state (λ a. ⊥) errors (λ a h. h)
  fields-Finds ((name, op) ∷ fields) errors =
      let first = read_kind op.kind op.span cfg state errors file in
      Finds-then cfg file state (OperandAccess op.kind op.span) (FieldAccess fields) errors first
        (read_fields fields cfg state first file) (operand-Finds op.kind op.span errors)
        (fields-Finds fields first)

  rvalue-Finds :
      (rv : Rvalue) (span : Span) (errors : List Error)
      → Finds cfg file state
          (RvalueAccess rv span)
          errors
          (apply_rvalue rv cfg state errors file span)
  unfolding apply_rvalue apply_operand_read
  rvalue-Finds (use_operand op) span errors = operand-Finds op.kind op.span errors
  rvalue-Finds (borrow mutable place region) span errors =
      check_borrow-Finds mutable place state span errors cfg file
  rvalue-Finds (cast source target_ty) span errors = operand-Finds source.kind source.span errors
  rvalue-Finds (call callee args id) span errors = all-Finds args errors
  rvalue-Finds (struct_lit p type_args fields) span errors = fields-Finds fields errors
  rvalue-Finds (tuple_lit ops) span errors = all-Finds ops errors
  rvalue-Finds (variant p type_args disc unit) span errors =
      Finds-nothing cfg file state (λ a. ⊥) errors (λ a h. h)
  rvalue-Finds (variant p type_args disc (tuple ops)) span errors = all-Finds ops errors
  rvalue-Finds (variant p type_args disc (struct fields)) span errors = fields-Finds fields errors
  rvalue-Finds (builtin name args) span errors = all-Finds args errors
  rvalue-Finds (discriminant place) span errors =
      check_read_shared-Finds place state span errors cfg file

  -- The accesses of the statement are free of conflicts.
  abbrev pub Allowed : CfgStmtKind → Span → BorrowSet → Type 0
  Allowed k span state' =
      ((a : Access) → AccessBefore k span a → Free a state)
      × ((a : Access) → AccessAfter k span a → Free a state')

  -- The error is the one about an access and a loan that conflict.
  abbrev pub BlamesStmt : CfgStmtKind → Span → BorrowSet → Error → Type 0
  BlamesStmt k span state' e =
      Blames cfg file state (AccessBefore k span) e ⊎ Blames cfg file state' (AccessAfter k span) e

  -- A statement reports exactly the conflicts of its accesses.
  abbrev pub FindsStmt : CfgStmtKind → Span → BorrowSet → List Error → List Error → Type 0
  FindsStmt k span state' before after =
      Reports (Allowed k span state') (BlamesStmt k span state') before after

  quiet :
      (k : CfgStmtKind) (span : Span) (errors : List Error)
      → ((a : Access) → AccessBefore k span a → ⊥)
      → ((a : Access) → AccessAfter k span a → ⊥)
      → FindsStmt k span state errors errors
  quiet k span errors p q =
      Reports-nothing (Allowed k span state) (BlamesStmt k span state) errors
        (λ a h. absurd (p a h), λ a h. absurd (q a h))

  kind-Finds :
      (k : CfgStmtKind) (span : Span) (errors : List Error)
      → let (state', errors') = stmt_kind k span cfg state errors file in
        FindsStmt k span state' errors errors'
  kind-Finds (assign place rv) span errors =
      let state' = add_loans rv place span cfg state in
      let middle = apply_rvalue rv cfg state errors file span in
      Reports-then ((a : Access) → RvalueAccess rv span a → Free a state)
        ((a : Access) → One writing place span a → Free a state')
        (Allowed (assign place rv) span state') (Blames cfg file state (RvalueAccess rv span))
        (Blames cfg file state' (One writing place span)) (BlamesStmt (assign place rv) span state')
        errors middle (check_write place state' span middle cfg file) (rvalue-Finds rv span errors)
        (check_write-Finds place state' span middle cfg file) (λ h. h, λ h. h) (λ e h. inl h)
        (λ e h. inr h)
  kind-Finds (drop place) span errors =
      Reports-then ((a : Access) → ⊥ → Free a state)
        ((a : Access) → One writing place span a → Free a state) (Allowed (drop place) span state)
        (Blames cfg file state (λ a. ⊥)) (Blames cfg file state (One writing place span))
        (BlamesStmt (drop place) span state) errors errors
        (check_write place state span errors cfg file)
        (Finds-nothing cfg file state (λ a. ⊥) errors (λ a h. h))
        (check_write-Finds place state span errors cfg file) (λ h. h, λ h. h) (λ e h. inl h)
        (λ e h. inr h)
  kind-Finds (storage_live l) span errors = quiet (storage_live l) span errors (λ a h. h) (λ a h. h)
  kind-Finds (storage_dead l) span errors = quiet (storage_dead l) span errors (λ a h. h) (λ a h. h)
  kind-Finds (uninit l) span errors = quiet (uninit l) span errors (λ a h. h) (λ a h. h)

-- apply_stmt reports no error exactly when no access of the statement conflicts with an active loan,
-- the write at its end with the loans that the statement adds counted in. Each error that it reports is
-- the one about an access and a loan that conflict: its message is that of the kind of the access and of
-- the loan and names the place accessed, and its span is that of the operand or, where the statement
-- itself makes the access, of the statement.
pub apply_stmt-Finds :
    (stmt : CfgStmt) (cfg : Cfg) (state : BorrowSet) (errors : List Error) (file : String)
    → let (state', errors') = apply_stmt stmt cfg state errors file in
      FindsStmt cfg state file stmt.kind stmt.span state' errors errors'
unfolding apply_stmt
apply_stmt-Finds stmt cfg state errors file = kind-Finds cfg state file stmt.kind stmt.span errors
