-- ===== src/Borrowck/Moves/Worklist.antt =====
-- src/borrowck/moves.rs: the rounds of analyze and what it returns. Its successors and
-- compute_predecessors are, word for word, those of the liveness analysis.
use pocket_rust.Prelude.{
  ◌≡◌, ℕ, Bool, true, false, not, ◌&&◌, Option, none, some, List, [], ◌∷◌, ◌++◌, String, string_eq,
  ◌==◌, length, get_or, set, push, any, replicate, for_each, for_range, if◌then◌else◌,
}
use pocket_rust.Span.{Error}
use pocket_rust.Typeck.Types.{RType}
use pocket_rust.Borrowck.Cfg.{BlockId, NodeId, Cfg}
use pocket_rust.Borrowck.Liveness.{successors, block_at, compute_predecessors}
use pocket_rust.Borrowck.Moves.{MoveSet, empty, equal, merge}
use pocket_rust.Borrowck.Moves.Transfer.{Effects, apply_block_transfer}
use pocket_rust.Borrowck.Moves.Snapshot.{MovedLocal, compute_moved_locals}
pub mod States
pub mod Queue
pub mod Settled
pub mod Rounds
pub mod Solved
mod Examples

-- The variables of the loop. `work` is a stack: its first element is the last of the source's vector.
pub record Worklist : Type 0 where
  pub block_in : List MoveSet
  pub block_out : List MoveSet
  pub errors : List Error
  pub move_sites_raw : List (NodeId × String)
  pub on_work : List Bool
  pub work : List BlockId

unfoldable pub start : ℕ → Worklist
start n = record {
  block_in = replicate n empty;
  block_out = replicate n empty;
  errors = [];
  move_sites_raw = [];
  on_work = replicate n true;
  work = for_range n 0 (λ b work. b ∷ work) [];
}

abbrev pub requeue : Worklist → BlockId → Worklist
requeue w s =
    if not (get_or w.on_work s false)
    then record w { on_work = set w.on_work s true; work = s ∷ w.work }
    else w

-- `acc`, with the state at the end of a predecessor.
abbrev pub merge_pred : List MoveSet → Option MoveSet → BlockId → Option MoveSet
merge_pred block_out none p = some (get_or block_out p empty)
merge_pred block_out (some prev) p = some (merge prev (get_or block_out p empty))

abbrev pub or_empty : Option MoveSet → MoveSet
or_empty none = empty
or_empty (some acc) = acc

unfoldable pub block_start : Cfg → List MoveSet → BlockId → MoveSet
block_start cfg block_out b =
    if b == cfg.entry
    then empty
    else or_empty (for_each (merge_pred block_out) none (get_or (compute_predecessors cfg) b []))

-- `is_drop` of the trait table is a parameter.
module _ (cfg : Cfg) (is_drop : RType → Bool) (file : String) where
  -- The state, the errors and the move sites behind the block.
  unfoldable pub block_end : MoveSet → List (NodeId × String) → BlockId → Effects
  block_end new_in sites b =
      apply_block_transfer cfg is_drop file (block_at cfg b)
        (record { state = new_in; errors = []; move_sites = sites })

  -- A round, with `b` popped and `work` left.
  unfoldable pub visit : BlockId → List BlockId → Worklist → Worklist
  visit b work w =
      let new_in = block_start cfg w.block_out b in
      let after = block_end new_in w.move_sites_raw b in
      let same : Worklist = record {
        block_in = set w.block_in b new_in;
        block_out = w.block_out;
        errors = w.errors ++ after.errors;
        move_sites_raw = after.move_sites;
        on_work = set w.on_work b false;
        work = work;
      } in
      if not (equal (get_or w.block_out b empty) after.state)
      then for_each requeue (record same { block_out = set w.block_out b after.state })
          (successors (block_at cfg b).terminator)
      else same

  -- The rounds of the loop, as long as there is work.
  pub data Reached : Worklist → Type 0 where
    started : Reached (start (length cfg.blocks))
    visited :
        {w : Worklist} {b : BlockId} {work : List BlockId}
        → Reached w
        → w.work ≡ b ∷ work
        → Reached (visit b work w)

unfoldable pub dedup_sites : List (NodeId × String) → List (NodeId × String)
dedup_sites raw =
    for_each
      (λ sites entry.
        if not (any (λ e. (e.0 == entry.0) && string_eq e.1 entry.1) sites)
        then push sites entry
        else sites)
      [] raw

pub record MoveAnalysis : Type 0 where
  pub block_in : List MoveSet
  pub block_out : List MoveSet
  pub errors : List Error
  pub moved_locals : List MovedLocal
  pub move_sites : List (NodeId × String)

-- What the analysis returns when no work is left.
unfoldable pub results : Cfg → Worklist → MoveAnalysis
results cfg w = record {
  block_in = w.block_in;
  block_out = w.block_out;
  errors = w.errors;
  moved_locals = compute_moved_locals cfg w.block_in;
  move_sites = dedup_sites w.move_sites_raw;
}
