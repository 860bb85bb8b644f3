-- ===== src/Borrowck/Borrows/Held.antt =====
-- Where a loan is held: its destination is live where the statements begin, or was so at the end of a block
-- from which the loan has come.
use pocket_rust.Prelude.{
  ◌≡◌, ◌⊎◌, inl, inr, refl, sym, ap, ◌∙◌, ℕ, zero, suc, ◌<◌, ◌==◌, some, List, [], ◌∷◌, length,
  get_elem?, get_or, get_or-beyond, drop, for_each, if◌then◌else◌, Bool-cases, arith,
}
use mathlib.Core.Logic.{⊎_elim}
use mathlib.Core.Path.{subst}
use mathlib.Core.List.{Memᴰ}
use mathlib.Core.List.Memᴰ
use native.Mathlib.Decide.{dec_lt}
use pocket_rust.Span.{Span}
use pocket_rust.Borrowck.Cfg.{
  BlockId, LocalId, Place, Rvalue, borrow, use_operand, cast, call, struct_lit, tuple_lit, variant,
  builtin, discriminant, CfgStmtKind, assign, unreachable, CfgStmt, Cfg,
}
use pocket_rust.Borrowck.Liveness.{LivenessAnalysis, successors, block_at, compute_predecessors}
use pocket_rust.Borrowck.Liveness.Preds.{InRange, compute_predecessors-sound}
use pocket_rust.Borrowck.Liveness.Flow.{Live, in_of}
use pocket_rust.Borrowck.Liveness.Fixpoint.{Finds}
use pocket_rust.Borrowck.Borrows.{ActiveBorrow, BorrowSet, empty, union_with, prune}
use pocket_rust.Borrowck.Borrows.LiveAfter.{compute_live_after_per_stmt}
use pocket_rust.Borrowck.Borrows.Transfer.{add_loans}
use pocket_rust.Borrowck.Borrows.Sets.{union_with-Union, prune-Live}
use pocket_rust.Borrowck.Borrows.Loans.{add_loans-Memᴰ, NewLoan}
use pocket_rust.Borrowck.Borrows.Worklist.{merge_preds, block_start}

-- The local is live at the end of the block, or the block has no statements and the same holds of one
-- before it.
pub data Leaves (cfg : Cfg) (l : LocalId) : BlockId → Type 0 where
  live_there : {b : BlockId} → Live cfg l [] (block_at cfg b).terminator → Leaves cfg l b
  through :
      {b p : BlockId}
      → (block_at cfg b).stmts ≡ []
      → Memᴰ b (successors (block_at cfg p).terminator)
      → Leaves cfg l p
      → Leaves cfg l b

-- Before the statement of that number: at the start of a block the local is one that leaves a block
-- before it, and further on it is live.
abbrev pub HeldAt : Cfg → BlockId → ℕ → LocalId → Type 0
HeldAt cfg b zero l =
    (p : BlockId) × Memᴰ b (successors (block_at cfg p).terminator) × Leaves cfg l p
HeldAt cfg b (suc i) l =
    Live cfg l (drop (suc i) (block_at cfg b).stmts) (block_at cfg b).terminator

-- The destination of each loan of the set.
abbrev pub AllHeld : Cfg → BlockId → ℕ → BorrowSet → Type 0
AllHeld cfg b i s = (loan : ActiveBorrow) → Memᴰ loan s.borrows → HeldAt cfg b i loan.dest

-- The statement assigns the local.
abbrev pub Assigns : CfgStmtKind → LocalId → Type 0
Assigns (assign place rvalue) l = l ≡ place.root
Assigns _ l = ⊥

drop_all {ℓ} : {A : Type ℓ} (xs : List A) → drop (length xs) xs ≡ []
drop_all [] = refl
drop_all (x ∷ xs) = drop_all xs

-- The statement at which a walk over the rest of a list stands.
pub drop_step {ℓ} :
    {A : Type ℓ} (xs : List A) (i : ℕ) (x : A) (rest : List A)
    → drop i xs ≡ x ∷ rest
    → (i < length xs) × (get_elem? xs i ≡ some x) × (drop (suc i) xs ≡ rest)
drop_step [] zero x rest e = absurd (cc)
drop_step [] (suc i) x rest e = absurd (cc)
drop_step (y ∷ ys) zero x rest e = (omega arith, cc, cc)
drop_step (y ∷ ys) (suc i) x rest e =
    let (lt, at, left) = drop_step ys i x rest e in (omega (arith, lt), at, left)

ended :
    (cfg : Cfg) (b : BlockId) (l : LocalId) (stmts : List CfgStmt)
    → (block_at cfg b).stmts ≡ stmts
    → HeldAt cfg b (length stmts) l
    → Leaves cfg l b
ended cfg b l [] e (p, m, h) = through e m h
ended cfg b l (stmt ∷ stmts) e h = live_there (
    subst (λ xs. Live cfg l xs (block_at cfg b).terminator)
      (ap (λ xs. drop (suc (length stmts)) xs) e ∙ drop_all stmts) h)

-- What is held at the end of a block leaves it.
pub HeldAt-Leaves :
    (cfg : Cfg) (b : BlockId) (i : ℕ) (l : LocalId)
    → length (block_at cfg b).stmts ≡ i
    → HeldAt cfg b i l
    → Leaves cfg l b
HeldAt-Leaves cfg b i l e h =
    ended cfg b l (block_at cfg b).stmts refl (subst (λ n. HeldAt cfg b n l) (sym e) h)

in_graph :
    (cfg : Cfg) (b : BlockId) (i : ℕ) → i < length (block_at cfg b).stmts → b < length cfg.blocks
in_graph cfg b i h = elim (dec_lt b (length cfg.blocks)) [
  | yes lt ↦ lt
  | no beyond ↦
      let e =
        get_or-beyond cfg.blocks b (record { stmts = []; terminator = unreachable })
          (omega arith) in
      let n = subst (λ block. i < length block.stmts) e h in absurd (omega (arith, n))
]

pub prune-AllHeld :
    (cfg : Cfg) (liveness : LivenessAnalysis) (b : BlockId) (i : ℕ) (s : BorrowSet)
    → Finds cfg liveness
    → i < length (block_at cfg b).stmts
    → AllHeld cfg b (suc i) (
        prune s
          (get_or (compute_live_after_per_stmt (block_at cfg b) (in_of liveness.block_out b)) i []))
prune-AllHeld cfg liveness b i s found h loan m =
    ((prune-Live cfg liveness b i s loan found (in_graph cfg b i h) h).0 m).1

-- A loan at the start of a block is one of the end of a predecessor.
merged_from :
    (outs : List BorrowSet) (ps : List BlockId) (acc : BorrowSet) (loan : ActiveBorrow)
    → Memᴰ loan (for_each (λ acc p. union_with acc (get_or outs p empty)) acc ps).borrows
    → Memᴰ loan acc.borrows ⊎ ((p : BlockId) × Memᴰ p ps × Memᴰ loan (get_or outs p empty).borrows)
unfolding for_each
merged_from outs [] acc loan m = inl m
merged_from outs (p ∷ ps) acc loan m =
    let out = get_or outs p empty in
    ⊎_elim
      (λ k.
        ⊎_elim (λ old. inl old) (λ new. inr (p, Memᴰ.head refl, new.0))
          ((union_with-Union acc out).no_other loan k))
      (λ (q, k, l). inr (q, Memᴰ.tail k, l)) (merged_from outs ps (union_with acc out) loan m)

pub start_from :
    (cfg : Cfg) (outs : List BorrowSet) (b : BlockId) (loan : ActiveBorrow)
    → Memᴰ loan (block_start cfg outs b).borrows
    → (p : BlockId) × Memᴰ p (get_or (compute_predecessors cfg) b [])
      × Memᴰ loan (get_or outs p empty).borrows
unfolding block_start merge_preds
start_from cfg outs b loan m =
    let preds = get_or (compute_predecessors cfg) b [] in
    let merged = merge_preds outs preds in
    elim (Bool-cases (b == cfg.entry)) [
      | inl e ↦
          absurd (Memᴰ.not-nil (subst (λ c. Memᴰ loan (if c then empty else merged).borrows) e m))
      | inr e ↦
          ⊎_elim (λ k. absurd (Memᴰ.not-nil k)) (λ k. k)
            (merged_from outs preds empty loan
              (subst (λ c. Memᴰ loan (if c then empty else merged).borrows) e m))
    ]

pub start-AllHeld :
    (cfg : Cfg) (outs : List BorrowSet) (b : BlockId)
    → InRange cfg
    → ((p : BlockId) (loan : ActiveBorrow)
        → Memᴰ loan (get_or outs p empty).borrows
        → Leaves cfg loan.dest p)
    → AllHeld cfg b 0 (block_start cfg outs b)
start-AllHeld cfg outs b range h loan m =
    let (p, k, l) = start_from cfg outs b loan m in
    (p, compute_predecessors-sound cfg range p b k, h p loan l)

-- A new loan is one of the local that is assigned.
NewLoan-dest :
    (rv : Rvalue) (place : Place) (span : Span) (cfg : Cfg) (s : BorrowSet) (loan : ActiveBorrow)
    → NewLoan rv place span cfg s loan
    → loan.dest ≡ place.root
NewLoan-dest (borrow mutable p region) place span cfg s loan e = ap (λ x. x.dest) e
NewLoan-dest (use_operand op) place span cfg s loan (t, old, m, c, n, e) = ap (λ x. x.dest) e
NewLoan-dest (cast source target_ty) place span cfg s loan (t, old, m, c, n, e) = ap (λ x. x.dest) e
NewLoan-dest (call callee args id) place span cfg s loan (t, old, m, c, n, e) = ap (λ x. x.dest) e
NewLoan-dest (struct_lit p type_args fields) place span cfg s loan (t, old, m, c, n, e) =
    ap (λ x. x.dest) e
NewLoan-dest (tuple_lit ops) place span cfg s loan (t, old, m, c, n, e) = ap (λ x. x.dest) e
NewLoan-dest (variant p type_args disc fields) place span cfg s loan (t, old, m, c, n, e) =
    ap (λ x. x.dest) e
NewLoan-dest (builtin name args) place span cfg s loan (t, old, m, c, n, e) = ap (λ x. x.dest) e
NewLoan-dest (discriminant p) place span cfg s loan (t, old, m, c, n, e) = ap (λ x. x.dest) e

pub add_loans-AllHeld :
    (cfg : Cfg) (b : BlockId) (i : ℕ) (rv : Rvalue) (place : Place) (span : Span) (s : BorrowSet)
    (loan : ActiveBorrow)
    → AllHeld cfg b i s
    → Memᴰ loan (add_loans rv place span cfg s).borrows
    → HeldAt cfg b i loan.dest ⊎ (loan.dest ≡ place.root)
add_loans-AllHeld cfg b i rv place span s loan h m =
    ⊎_elim (λ k. inl (h loan k)) (λ n. inr (NewLoan-dest rv place span cfg s loan n))
      ((add_loans-Memᴰ rv place span cfg s loan).0 m)
