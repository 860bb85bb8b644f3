-- ===== src/Borrowck/Borrows/Rounds.antt =====
-- Whatever the order of the rounds, the loans and the errors of the analysis have their grounds in the
-- graph.
use pocket_rust.Prelude.{ℕ, List, All, String, get_or}
use pocket_rust.Prelude.{drop as drop_list}
use pocket_rust.Borrowck.Liveness.Preds.{InRange}
use pocket_rust.Borrowck.Liveness.Flow.{in_of}
use pocket_rust.Borrowck.Liveness.Fixpoint.{Finds}
use pocket_rust.Borrowck.Borrows.LiveAfter.{compute_live_after_per_stmt}
use pocket_rust.Borrowck.Borrows.Held.{Leaves}
use mathlib.Core.List.{Memᴰ}
use mathlib.Core.List.Memᴰ
use pocket_rust.Span.{Error}
use pocket_rust.Borrowck.Cfg.{BlockId, Cfg}
use pocket_rust.Borrowck.Liveness.{LivenessAnalysis, block_at}
use pocket_rust.Borrowck.Borrows.{ActiveBorrow, BorrowSet, empty}
use pocket_rust.Borrowck.Borrows.Worklist.{Worklist}
use pocket_rust.Borrowck.Borrows.Made.{Made, AllMade}
use pocket_rust.Borrowck.Borrows.Grounds.{Grounded}

module _ (cfg : Cfg) (file : String) (liveness : LivenessAnalysis) (found : Finds cfg liveness)
    (range : InRange cfg) where
  -- Behind the block.
  abbrev SoundEnd : BlockId → BorrowSet × List Error → Type 0
  SoundEnd b (s, errors) =
      AllMade cfg s
      × ((loan : ActiveBorrow) → Memᴰ loan s.borrows → Leaves cfg loan.dest b)
      × All (Grounded cfg file) errors

  abbrev live_lists : BlockId → List (List ℕ)
  live_lists b = compute_live_after_per_stmt (block_at cfg b) (in_of liveness.block_out b)

  -- Every set of the list, as one at the end of its block.
  abbrev EachSound : List BorrowSet → Type 0
  EachSound sets =
      (b : BlockId) (loan : ActiveBorrow)
      → Memᴰ loan (get_or sets b empty).borrows
      → Made cfg loan × Leaves cfg loan.dest b

  -- The variables of the loop are sound.
  record SoundWork (w : Worklist) : Type 0 where
    sets : EachSound w.block_out
    errors : All (Grounded cfg file) w.errors
