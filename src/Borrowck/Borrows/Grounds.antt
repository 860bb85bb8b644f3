-- ===== src/Borrowck/Borrows/Grounds.antt =====
-- What the errors of the loan analysis are about, and the step of one statement.
use pocket_rust.Prelude.{All-append, ◌≡◌, ◌⊎◌, inl, inr, refl, sym, ℕ, List, [], ◌∷◌, All, String}
use pocket_rust.Prelude.{get_elem?, some}
use pocket_rust.Borrowck.Borrows.Held.{HeldAt, AllHeld, Assigns, add_loans-AllHeld}
use mathlib.Core.Logic.{⊎_elim}
use mathlib.Core.Path.{subst}
use mathlib.Core.List.{Memᴰ}
use pocket_rust.Span.{Span, Error}
use pocket_rust.Borrowck.Cfg.{
  BlockId, CfgStmtKind, assign, drop, storage_live, storage_dead, uninit, CfgStmt, Cfg,
}
use pocket_rust.Borrowck.Liveness.{block_at}
use pocket_rust.Borrowck.Borrows.{ActiveBorrow, BorrowSet}
use pocket_rust.Borrowck.Borrows.Transfer.{stmt_kind, apply_stmt}
use pocket_rust.Borrowck.Borrows.Reports.{Access, Conflict, report}
use pocket_rust.Borrowck.Borrows.Reports.Stmt.{
  AccessBefore, AccessAfter, BlamesStmt, apply_stmt-Finds,
}
use pocket_rust.Borrowck.Borrows.Made.{Occurs, Made, AllMade, add_loans-AllMade}

-- The error is the one about an access of a statement and a loan that conflict. A statement makes the loan,
-- and it is held before the statement of the access; a write at the end of an assignment may also meet a
-- loan that the assignment puts on its local.
pub record Grounded (cfg : Cfg) (file : String) (e : Error) : Type 0 where
  pub block : BlockId
  pub position : ℕ
  pub stmt : CfgStmt
  pub there : get_elem? (block_at cfg block).stmts position ≡ some stmt
  pub access : Access
  pub loan : ActiveBorrow
  pub made : Made cfg loan
  pub conflict : Conflict access loan
  pub said : e ≡ report cfg file access loan
  pub held :
      (AccessBefore stmt.kind stmt.span access × HeldAt cfg block position loan.dest)
      ⊎ (AccessAfter stmt.kind stmt.span access
          × (HeldAt cfg block position loan.dest ⊎ Assigns stmt.kind loan.dest))

module _ (cfg : Cfg) (file : String) where
  -- Before the statement: the loans are made and held, and the errors are grounded.
  abbrev pub Sound : BlockId → ℕ → BorrowSet × List Error → Type 0
  Sound b i (s, errors) = AllMade cfg s × AllHeld cfg b i s × All (Grounded cfg file) errors

  kind-AllMade :
      (k : CfgStmtKind) (span : Span) (s : BorrowSet) (errors : List Error)
      → Occurs cfg k
      → AllMade cfg s
      → AllMade cfg (stmt_kind k span cfg s errors file).0
  kind-AllMade (assign place rv) span s errors o h = add_loans-AllMade cfg rv place span s o h
  kind-AllMade (drop place) span s errors o h = h
  kind-AllMade (storage_live l) span s errors o h = h
  kind-AllMade (storage_dead l) span s errors o h = h
  kind-AllMade (uninit l) span s errors o h = h

  kind-Held :
      (b : BlockId) (i : ℕ) (k : CfgStmtKind) (span : Span) (s : BorrowSet) (errors : List Error)
      → AllHeld cfg b i s
      → (loan : ActiveBorrow) → Memᴰ loan (stmt_kind k span cfg s errors file).0.borrows
      → HeldAt cfg b i loan.dest ⊎ Assigns k loan.dest
  kind-Held b i (assign place rv) span s errors h loan m =
      add_loans-AllHeld cfg b i rv place span s loan h m
  kind-Held b i (drop place) span s errors h loan m = inl (h loan m)
  kind-Held b i (storage_live l) span s errors h loan m = inl (h loan m)
  kind-Held b i (storage_dead l) span s errors h loan m = inl (h loan m)
  kind-Held b i (uninit l) span s errors h loan m = inl (h loan m)

  Blames-Grounded :
      (b : BlockId) (i : ℕ) (stmt : CfgStmt) (s s' : BorrowSet) (es : List Error)
      → get_elem? (block_at cfg b).stmts i ≡ some stmt
      → AllMade cfg s
      → AllHeld cfg b i s
      → AllMade cfg s'
      → ((loan : ActiveBorrow)
          → Memᴰ loan s'.borrows
          → HeldAt cfg b i loan.dest ⊎ Assigns stmt.kind loan.dest)
      → All (BlamesStmt cfg s file stmt.kind stmt.span s') es
      → All (Grounded cfg file) es
  Blames-Grounded b i stmt s s' [] at made held made' held' g = tt
  Blames-Grounded b i stmt s s' (e ∷ es) at made held made' held' g = (
    ⊎_elim
        (λ (a, loan, acc, m, c, said). record {
          block = b;
          position = i;
          stmt = stmt;
          there = at;
          access = a;
          loan = loan;
          made = made loan m;
          conflict = c;
          said = said;
          held = inl (acc, held loan m);
        })
        (λ (a, loan, acc, m, c, said). record {
          block = b;
          position = i;
          stmt = stmt;
          there = at;
          access = a;
          loan = loan;
          made = made' loan m;
          conflict = c;
          said = said;
          held = inr (acc, held' loan m);
        })
        g.0,
    Blames-Grounded b i stmt s s' es at made held made' held' g.1,
  )

  pub stmt-Sound :
      (b : BlockId) (i : ℕ) (stmt : CfgStmt) (s : BorrowSet) (errors : List Error)
      → Memᴰ stmt (block_at cfg b).stmts
      → get_elem? (block_at cfg b).stmts i ≡ some stmt
      → Sound b i (s, errors)
      → let (s', errors') = apply_stmt stmt cfg s errors file in
        AllMade cfg s' × All (Grounded cfg file) errors'
  unfolding apply_stmt
  stmt-Sound b i stmt s errors m at (made, held, good) =
      let k = stmt.kind in
      let o : Occurs cfg k = (b, stmt, m, refl) in
      let found = apply_stmt-Finds stmt cfg s errors file in
      let s' = (stmt_kind k stmt.span cfg s errors file).0 in
      let made' = kind-AllMade k stmt.span s errors o made in
      let held' = kind-Held b i k stmt.span s errors held in
      (
        made',
        subst (λ es. All (Grounded cfg file) es) (sym found.split)
            (All-append (Grounded cfg file) errors found.news good
              (Blames-Grounded b i stmt s s' found.news at made held made' held' found.good)),
      )
