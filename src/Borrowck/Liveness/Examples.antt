-- ===== src/Borrowck/Liveness/Examples.antt =====
-- A run of the liveness analysis on a loop, and its theorem at it.
use pocket_rust.Prelude.{
  zero, suc, ◌<◌, ◌≡◌, refl, true, none, some, List, [], ◌∷◌, All-Memᴰ, for_each, for_range, arith,
}
use mathlib.Core.List.{Memᴰ}
use mathlib.Core.List.Memᴰ
use mathlib.Core.Logic.{⊎_elim}
use pocket_rust.Span.{Span}
use pocket_rust.Typeck.Types.{RType, int, u32, bool}
use pocket_rust.Borrowck.Graph.{new_graph}
use pocket_rust.Borrowck.Cfg.{
  BlockId, LocalId, Place, OperandKind, move, copy, const_int, Operand, Rvalue, use_operand,
  builtin, CfgStmt, assign, goto, if_branch, return, LocalDecl, Cfg,
}
use pocket_rust.Borrowck.Liveness.{
  LiveSet, analyze, LivenessAnalysis, block_at, work_loop, visit, equal, transfer_block,
  transfer_stmts, transfer_stmt, mark_rvalue_uses, mark_operand_uses, mark_all, mark_fields, union,
  insert, remove, binary_search, transfer_terminator, successors, compute_predecessors,
}
use pocket_rust.Borrowck.Liveness.Uses.{StmtReads, TerminatorReads}
use pocket_rust.Borrowck.Liveness.Preds.{InRange}
use pocket_rust.Borrowck.Liveness.Bound.{LocalsInRange, enough}
use pocket_rust.Borrowck.Liveness.Fixpoint.{Finds, analyze-Finds}

abbrev nowhere : Span
nowhere = record { start = record { line = 1; col = 1 }; end = record { line = 1; col = 1 } }

abbrev local : LocalId → Place
local l = record { root = l; projections = [] }

abbrev operand : OperandKind → Operand
operand kind = record { kind = kind; span = nowhere; node_id = none }

abbrev set_local : LocalId → Rvalue → CfgStmt
set_local l rvalue = record { kind = assign (local l) rvalue; span = nowhere }

abbrev decl : RType → LocalDecl
decl ty = record { name = none; ty = ty; span = nowhere; mutable = true; is_temp = true }

-- `let mut x = 7; loop { c = x < x; if !c { break } } return x`
abbrev looping : Cfg
looping = record {
  blocks =
      record { stmts = set_local 1 (use_operand (operand (const_int 7))) ∷ []; terminator = goto 1 }
      ∷ record {
        stmts =
            set_local 2 (builtin "lt" (operand (copy (local 1)) ∷ operand (copy (local 1)) ∷ []))
            ∷ [];
        terminator = if_branch (operand (copy (local 2))) 1 2;
      }
      ∷ record {
        stmts = set_local 0 (use_operand (operand (move (local 1)))) ∷ [];
        terminator = return;
      }
      ∷ [];
  locals = decl (int u32) ∷ decl (int u32) ∷ decl bool ∷ [];
  entry = 0;
  region_count = 1;
  region_graph = new_graph;
  return_local = some 0;
  param_count = 0;
}

abbrev only : List LocalId → LiveSet
only xs = record { locals = xs }

abbrev found : LivenessAnalysis
found = record {
  block_in = only [] ∷ only (1 ∷ []) ∷ only (1 ∷ []) ∷ [];
  block_out = only (1 ∷ []) ∷ only (1 ∷ []) ∷ only [] ∷ [];
}

looping-found : analyze 20 looping ≡ some found
unfolding analyze work_loop for_range visit equal transfer_block transfer_stmts transfer_stmt
    mark_rvalue_uses mark_operand_uses mark_all mark_fields union insert remove binary_search
    transfer_terminator for_each successors compute_predecessors
looping-found = refl

InRange-looping : InRange looping
unfolding successors
InRange-looping zero s m = All-Memᴰ (λ s. s < 3) (1 ∷ []) s (omega arith, tt) m
InRange-looping (suc zero) s m =
    All-Memᴰ (λ s. s < 3) (1 ∷ 2 ∷ []) s (omega arith, (omega arith, tt)) m
InRange-looping (suc (suc zero)) s m = absurd (Memᴰ.not-nil m)
InRange-looping (suc (suc (suc b))) s m = absurd (Memᴰ.not-nil m)

abbrev ReadsDeclared : LocalId → CfgStmt → Type 0
ReadsDeclared l stmt = StmtReads stmt.kind l → l < 3

looping_stmts :
    (b : BlockId) (stmt : CfgStmt) (l : LocalId)
    → Memᴰ stmt (block_at looping b).stmts
    → ReadsDeclared l stmt
looping_stmts zero stmt l m =
    All-Memᴰ (ReadsDeclared l) (block_at looping 0).stmts stmt (λ r. absurd r, tt) m
looping_stmts (suc zero) stmt l m =
    All-Memᴰ (ReadsDeclared l) (block_at looping 1).stmts stmt
      (⊎_elim (λ e. omega (arith, e)) (⊎_elim (λ e. omega (arith, e)) (λ e. absurd e)), tt) m
looping_stmts (suc (suc zero)) stmt l m =
    All-Memᴰ (ReadsDeclared l) (block_at looping 2).stmts stmt (λ e. omega (arith, e), tt) m
looping_stmts (suc (suc (suc b))) stmt l m = absurd (Memᴰ.not-nil m)

looping_terminators :
    (b : BlockId) (l : LocalId) → TerminatorReads (block_at looping b).terminator l → l < 3
looping_terminators zero l r = absurd r
looping_terminators (suc zero) l r = omega (arith, r)
looping_terminators (suc (suc zero)) l r = absurd r
looping_terminators (suc (suc (suc b))) l r = absurd r

LocalsInRange-looping : LocalsInRange looping
LocalsInRange-looping = record { stmts = looping_stmts; terminators = looping_terminators }

analyze-Finds_example :
    (r : LivenessAnalysis) × (analyze (enough looping) looping ≡ some r) × Finds looping r
analyze-Finds_example =
    analyze-Finds looping (enough looping) InRange-looping LocalsInRange-looping (omega arith)
