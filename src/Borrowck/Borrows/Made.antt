-- ===== src/Borrowck/Borrows/Made.antt =====
-- The operations on loan sets bring in only loans that statements of the graph make.
use pocket_rust.Prelude.{◌≡◌, sym, ℕ, List, retain-Memᴰ}
use mathlib.Core.Logic.{⊎_elim}
use mathlib.Core.Path.{subst}
use mathlib.Core.List.{Memᴰ}
use pocket_rust.Span.{Span}
use pocket_rust.Borrowck.Cfg.{
  BlockId, Place, Rvalue, borrow, use_operand, cast, call, struct_lit, tuple_lit, variant, builtin,
  discriminant, CfgStmtKind, assign, CfgStmt, Cfg,
}
use pocket_rust.Borrowck.Liveness.{block_at}
use pocket_rust.Borrowck.Borrows.{ActiveBorrow, BorrowSet, prune, contains}
use pocket_rust.Borrowck.Borrows.Transfer.{add_loans}
use pocket_rust.Borrowck.Borrows.Loans.{add_loans-Memᴰ, Inherits, NewLoan}

-- The statement stands in a block of the graph.
abbrev pub Occurs : Cfg → CfgStmtKind → Type 0
Occurs cfg k = (b : BlockId) × (stmt : CfgStmt) × Memᴰ stmt (block_at cfg b).stmts × (stmt.kind ≡ k)

-- A statement of the graph makes the loan.
abbrev pub Made : Cfg → ActiveBorrow → Type 0
Made cfg b = (target : Place) × Occurs cfg (assign target (borrow b.mutable b.place b.id))

module _ (cfg : Cfg) where
  -- Every loan of the set is made by a statement.
  abbrev pub AllMade : BorrowSet → Type 0
  AllMade s = (b : ActiveBorrow) → Memᴰ b s.borrows → Made cfg b

  pub prune-AllMade : (s : BorrowSet) (live : List ℕ) → AllMade s → AllMade (prune s live)
  unfolding prune
  prune-AllMade s live h b m = h b ((retain-Memᴰ (λ x. contains live x.dest) s.borrows b).0 m).0

  Inherits-Made :
      (rv : Rvalue) (root : ℕ) (span : Span) (s : BorrowSet) (b : ActiveBorrow)
      → AllMade s
      → Inherits rv root span cfg s b
      → Made cfg b
  Inherits-Made rv root span s b h (t, old, m, c, n, e) = subst (λ x. Made cfg x) (sym e) (h old m)

  NewLoan-Made :
      (rv : Rvalue) (place : Place) (span : Span) (s : BorrowSet) (b : ActiveBorrow)
      → Occurs cfg (assign place rv)
      → AllMade s
      → NewLoan rv place span cfg s b
      → Made cfg b
  NewLoan-Made (borrow mutable p region) place span s b o h e =
      subst (λ x. Made cfg x) (sym e) (place, o)
  NewLoan-Made (use_operand op) place span s b o h n =
      Inherits-Made (use_operand op) place.root span s b h n
  NewLoan-Made (cast source target_ty) place span s b o h n =
      Inherits-Made (cast source target_ty) place.root span s b h n
  NewLoan-Made (call callee args id) place span s b o h n =
      Inherits-Made (call callee args id) place.root span s b h n
  NewLoan-Made (struct_lit p type_args fields) place span s b o h n =
      Inherits-Made (struct_lit p type_args fields) place.root span s b h n
  NewLoan-Made (tuple_lit ops) place span s b o h n =
      Inherits-Made (tuple_lit ops) place.root span s b h n
  NewLoan-Made (variant p type_args disc fields) place span s b o h n =
      Inherits-Made (variant p type_args disc fields) place.root span s b h n
  NewLoan-Made (builtin name args) place span s b o h n =
      Inherits-Made (builtin name args) place.root span s b h n
  NewLoan-Made (discriminant p) place span s b o h n =
      Inherits-Made (discriminant p) place.root span s b h n

  pub add_loans-AllMade :
      (rv : Rvalue) (place : Place) (span : Span) (s : BorrowSet)
      → Occurs cfg (assign place rv)
      → AllMade s
      → AllMade (add_loans rv place span cfg s)
  add_loans-AllMade rv place span s o h b m =
      ⊎_elim (h b) (λ n. NewLoan-Made rv place span s b o h n)
        ((add_loans-Memᴰ rv place span cfg s b).0 m)
