-- ===== src/Borrowck/Borrows/Worklist.antt =====
-- src/borrowck/borrows.rs: the rounds of analyze. Its successors and compute_predecessors are, word for
-- word, those of the liveness analysis.
use pocket_rust.Prelude.{
  ◌≡◌, ℕ, Bool, true, false, not, List, [], ◌∷◌, ◌++◌, String, ◌==◌, length, get_or, set, replicate,
  for_each, for_range, if◌then◌else◌,
}
use pocket_rust.Span.{Error}
use pocket_rust.Borrowck.Cfg.{BlockId, Cfg}
use pocket_rust.Borrowck.Liveness.{LivenessAnalysis, successors, block_at, compute_predecessors}
use pocket_rust.Borrowck.Borrows.{BorrowSet, empty, union_with, equal}
use pocket_rust.Borrowck.Borrows.Transfer.{apply_block}

-- The variables of the loop. `work` is a stack: its first element is the last of the source's vector.
pub record Worklist : Type 0 where
  pub block_in : List BorrowSet
  pub block_out : List BorrowSet
  pub errors : List Error
  pub on_work : List Bool
  pub work : List BlockId

unfoldable pub start : ℕ → Worklist
start n = record {
  block_in = replicate n empty;
  block_out = replicate n empty;
  errors = [];
  on_work = replicate n true;
  work = for_range n 0 (λ b work. b ∷ work) [];
}

abbrev pub requeue : Worklist → BlockId → Worklist
requeue w s =
    if not (get_or w.on_work s false)
    then record {
      block_in = w.block_in;
      block_out = w.block_out;
      errors = w.errors;
      on_work = set w.on_work s true;
      work = s ∷ w.work;
    }
    else w

-- The union of the sets at the ends of the predecessors.
unfoldable pub merge_preds : List BorrowSet → List BlockId → BorrowSet
merge_preds block_out preds =
    for_each (λ acc p. union_with acc (get_or block_out p empty)) empty preds

unfoldable pub block_start : Cfg → List BorrowSet → BlockId → BorrowSet
block_start cfg block_out b =
    if b == cfg.entry then empty else merge_preds block_out (get_or (compute_predecessors cfg) b [])

-- A round, with `b` popped and `work` left.
unfoldable pub visit :
    Cfg → LivenessAnalysis → String → BlockId → List BlockId → Worklist → Worklist
visit cfg liveness file b work w =
    let on_work = set w.on_work b false in
    let new_in = block_start cfg w.block_out b in
    let block_in = set w.block_in b new_in in
    let (state, block_errors) = apply_block (block_at cfg b) cfg new_in liveness b [] file in
    let errors = w.errors ++ block_errors in
    if not (equal state (get_or w.block_out b empty))
    then for_each requeue
        (record {
          block_in = block_in;
          block_out = set w.block_out b state;
          errors = errors;
          on_work = on_work;
          work = work;
        })
        (successors (block_at cfg b).terminator)
    else record {
      block_in = block_in;
      block_out = w.block_out;
      errors = errors;
      on_work = on_work;
      work = work;
    }

-- The rounds of the loop, as long as there is work.
pub data Reached (cfg : Cfg) (liveness : LivenessAnalysis) (file : String) : Worklist → Type 0 where
  started : Reached cfg liveness file (start (length cfg.blocks))
  visited :
      {w : Worklist} {b : BlockId} {work : List BlockId}
      → Reached cfg liveness file w
      → w.work ≡ b ∷ work
      → Reached cfg liveness file (visit cfg liveness file b work w)
