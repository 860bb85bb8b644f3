-- ===== src/Borrowck/Liveness/Bound.antt =====
-- How large the sets can get, and the rounds that this allows.
use pocket_rust.Prelude.{
  ℕ, zero, suc, ◌+◌, ◌*◌, ◌<◌, ◌≤◌, ◌≡◌, refl, List, [], ◌∷◌, get_or, set, length, arith,
}
use mathlib.Core.List.{Memᴰ}
use native.Mathlib.Nat.{suc-mul}
use pocket_rust.Borrowck.Cfg.{BlockId, LocalId, CfgStmt, Terminator, Cfg}
use pocket_rust.Borrowck.Liveness.{LiveSet, block_at, compute_predecessors}
use pocket_rust.Borrowck.Liveness.Uses.{StmtReads, TerminatorReads}
use pocket_rust.Borrowck.Liveness.Flow.{Live, reads, spared, ends, goes_on, in_of}

-- Every local that the graph reads is declared.
pub record LocalsInRange (cfg : Cfg) : Type 0 where
  pub stmts :
      (b : BlockId) (stmt : CfgStmt) (l : LocalId)
      → Memᴰ stmt (block_at cfg b).stmts
      → StmtReads stmt.kind l
      → l < length cfg.locals
  pub terminators :
      (b : BlockId) (l : LocalId)
      → TerminatorReads (block_at cfg b).terminator l
      → l < length cfg.locals

pub Live-below :
    (cfg : Cfg) (l : LocalId)
    → LocalsInRange cfg
    → {stmts : List CfgStmt} {term : Terminator}
    → ((stmt : CfgStmt) → Memᴰ stmt stmts → StmtReads stmt.kind l → l < length cfg.locals)
    → (TerminatorReads term l → l < length cfg.locals)
    → Live cfg l stmts term
    → l < length cfg.locals
Live-below cfg l range f g (reads {stmt = stmt} r) = f stmt (Memᴰ.head refl) r
Live-below cfg l range f g (spared k live) =
    Live-below cfg l range (λ stmt m. f stmt (Memᴰ.tail m)) g live
Live-below cfg l range f g (ends r) = g r
Live-below cfg l range f g (goes_on s m live) =
    Live-below cfg l range (λ stmt i r. range.stmts s stmt l i r) (range.terminators s l) live

-- The sizes of the sets together.
abbrev pub total : List LiveSet → ℕ
total [] = 0
total (s ∷ sets) = length s.locals + total sets

pub total-set :
    (sets : List LiveSet) (b : BlockId) (v : LiveSet)
    → b < length sets
    → total (set sets b v) + length (in_of sets b).locals ≡ total sets + length v.locals
total-set [] b v h = absurd (omega arith)
total-set (s ∷ sets) zero v h = omega arith
total-set (s ∷ sets) (suc b) v h = omega (arith, total-set sets b v (omega arith))

pub total-below :
    (sets : List LiveSet) (bound : ℕ)
    → ((b : BlockId) → length (in_of sets b).locals ≤ bound)
    → total sets ≤ length sets * bound
total-below [] bound f = omega arith
total-below (s ∷ sets) bound f =
    omega (arith, suc-mul (length sets) bound, f 0, total-below sets bound (λ b. f (suc b)))

-- The number of edges.
abbrev pub edges : List (List BlockId) → ℕ
edges [] = 0
edges (xs ∷ preds) = length xs + edges preds

pub edges-bound :
    (preds : List (List BlockId)) (b : BlockId) → length (get_or preds b []) ≤ edges preds
edges-bound [] b = omega arith
edges-bound (xs ∷ preds) zero = omega arith
edges-bound (xs ∷ preds) (suc b) = omega (arith, edges-bound preds b)

-- Rounds that are enough for the loop.
abbrev pub enough : Cfg → ℕ
enough cfg =
    suc
      (length cfg.blocks + length cfg.blocks * length cfg.locals * edges (compute_predecessors cfg))
