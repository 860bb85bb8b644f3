-- ===== src/Borrowck/Borrows/LiveAfter/Exact.antt =====
-- The locals that apply_block prunes by are the live ones.
use pocket_rust.Prelude.{
  ◌≡◌, ◌↔◌, ◌⊎◌, inl, inr, sym, ◌<◌, ℕ, zero, suc, true, List, [], ◌∷◌, length, get_or, drop,
  All-Memᴰ, arith,
}
use native.Mathlib.Decide.{ℕ_discrete}
use mathlib.Core.Logic.{⊎_elim}
use mathlib.Core.Path.{subst}
use mathlib.Core.List.{Memᴰ}
use mathlib.Core.List.Memᴰ
use pocket_rust.Borrowck.Cfg.{BlockId, LocalId, CfgStmt, Terminator, Cfg}
use pocket_rust.Borrowck.Liveness.{LiveSet, LivenessAnalysis, successors, block_at}
use pocket_rust.Borrowck.Liveness.Sets.{Has, contains-member}
use pocket_rust.Borrowck.Liveness.Sets.Sorted.{IsSorted, member}
use pocket_rust.Borrowck.Liveness.Uses.{StmtReads, StmtKills, TerminatorReads}
use pocket_rust.Borrowck.Liveness.Flow.{Live, reads, spared, ends, goes_on, in_of}
use pocket_rust.Borrowck.Liveness.Fixpoint.{Finds}
use pocket_rust.Borrowck.Borrows.LiveAfter.{
  transfer_stmt_backward, transfer_terminator_backward, peel, compute_live_after_per_stmt,
}
use pocket_rust.Borrowck.Borrows.LiveAfter.Uses.{Adds-terminator, Steps-kind}

Live-cons :
    (cfg : Cfg) (l : LocalId) (stmt : CfgStmt) (stmts : List CfgStmt) (term : Terminator)
    → Live cfg l (stmt ∷ stmts) term
      ↔ (StmtReads stmt.kind l ⊎ (StmtKills stmt.kind l → ⊥) × Live cfg l stmts term)
Live-cons cfg l stmt stmts term = (split, ⊎_elim (λ r. reads r) (λ q. spared q.0 q.1))
  where
    split :
        Live cfg l (stmt ∷ stmts) term
        → StmtReads stmt.kind l ⊎ (StmtKills stmt.kind l → ⊥) × Live cfg l stmts term
    split (reads r) = inl r
    split (spared k live) = inr (k, live)

-- The local is live at the start of a successor.
abbrev Beyond : Cfg → Terminator → LocalId → Type 0
Beyond cfg term l =
    (s : BlockId) × Memᴰ s (successors term)
    × Live cfg l (block_at cfg s).stmts (block_at cfg s).terminator

Live-nil :
    (cfg : Cfg) (l : LocalId) (term : Terminator)
    → Live cfg l [] term ↔ (TerminatorReads term l ⊎ Beyond cfg term l)
Live-nil cfg l term = (split, ⊎_elim (λ r. ends r) (λ q. let (s, m, live) = q in goes_on s m live))
  where
    split : Live cfg l [] term → TerminatorReads term l ⊎ Beyond cfg term l
    split (ends r) = inl r
    split (goes_on s m live) = inr (s, m, live)

module _ (cfg : Cfg) (term : Terminator) (out : List LocalId)
    (exact : (l : LocalId) → Memᴰ l out ↔ Live cfg l [] term) where
  peel-before :
      (stmts : List CfgStmt) (l : LocalId) → Memᴰ l (peel stmts out).1 ↔ Live cfg l stmts term
  unfolding peel transfer_stmt_backward
  peel-before [] l = exact l
  peel-before (stmt ∷ stmts) l =
      let rest = peel-before stmts l in
      let step = Steps-kind stmt.kind (peel stmts out).1 l in
      let live = Live-cons cfg l stmt stmts term in
      (
        λ m. live.1 (⊎_elim (λ r. inl r) (λ q. inr (q.0, rest.0 q.1)) (step.0 m)),
        λ p. step.1 (⊎_elim (λ r. inl r) (λ q. inr (q.0, rest.1 q.1)) (live.0 p)),
      )

  peel-after :
      (stmts : List CfgStmt) (i : ℕ) (l : LocalId)
      → i < length stmts
      → Memᴰ l (get_or (peel stmts out).0 i []) ↔ Live cfg l (drop (suc i) stmts) term
  unfolding peel
  peel-after [] i l h = absurd (omega arith)
  peel-after (stmt ∷ stmts) zero l h = peel-before stmts l
  peel-after (stmt ∷ stmts) (suc i) l h = peel-after stmts i l (omega arith)

member-Memᴰ : (xs : List ℕ) (l : ℕ) → IsSorted xs → (member xs l ≡ true) ↔ Memᴰ l xs
member-Memᴰ [] l h = (λ e. absurd (cc), λ m. absurd (Memᴰ.not-nil m))
member-Memᴰ (x ∷ xs) l h =
    let rest = member-Memᴰ xs l h.1 in
    (
      λ e. elim (ℕ_discrete l x) [
        | yes same ↦ Memᴰ.head same
        | no other ↦ let q : member xs l ≡ true = ground arith in Memᴰ.tail (rest.0 q)
      ],
      λ m.
          ⊎_elim (λ e. ground arith)
            (λ k. let q = rest.1 k in let b = All-Memᴰ (λ y. x < y) xs l h.0 k in ground arith)
            (Memᴰ.cases_cons m),
    )

Has-Memᴰ : (s : LiveSet) (l : LocalId) → IsSorted s.locals → Has s l ↔ Memᴰ l s.locals
Has-Memᴰ s l h =
    subst (λ b. (b ≡ true) ↔ Memᴰ l s.locals) (sym (contains-member s l)) (member-Memᴰ s.locals l h)

-- With the result of the liveness analysis, the locals by which apply_block prunes the loans after a
-- statement are exactly those that are live behind the statement, by the paths through the graph.
pub compute_live_after_per_stmt-Live :
    (cfg : Cfg) (liveness : LivenessAnalysis) (b : BlockId) (i : ℕ) (l : LocalId)
    → Finds cfg liveness
    → b < length cfg.blocks
    → i < length (block_at cfg b).stmts
    → Memᴰ l
        (get_or (compute_live_after_per_stmt (block_at cfg b) (in_of liveness.block_out b)) i [])
      ↔ Live cfg l (drop (suc i) (block_at cfg b).stmts) (block_at cfg b).terminator
unfolding compute_live_after_per_stmt
compute_live_after_per_stmt-Live cfg liveness b i l found h g =
    let block = block_at cfg b in
    let out = in_of liveness.block_out b in
    let behind = transfer_terminator_backward block.terminator out.locals in
    let exact : (l : LocalId) → Memᴰ l behind ↔ Live cfg l [] block.terminator = λ l.
      let added = Adds-terminator block.terminator out.locals l in
      let live = Live-nil cfg l block.terminator in
      let ends = found.at_end b l h in
      let same = Has-Memᴰ out l (found.out_in_order b h) in
      (
        λ m. live.1 (⊎_elim (λ r. inl r) (λ q. inr (ends.0 (same.1 q))) (added.0 m)),
        λ p. added.1 (⊎_elim (λ r. inl r) (λ q. inr (same.0 (ends.1 q))) (live.0 p)),
      ) in
    peel-after cfg block.terminator behind exact block.stmts i l g
