-- ===== src/Borrowck/Liveness/Growth.antt =====
-- The sets at the starts of the blocks, and what a round does to them.
use pocket_rust.Prelude.{◌<◌, ◌≡◌, ◌∙◌, List, get_or-set_cases, set, length, length-set, arith}
use pocket_rust.Borrowck.Cfg.{BlockId, LocalId, Cfg}
use pocket_rust.Borrowck.Liveness.{LiveSet, empty, transfer_block, block_at, live_out}
use pocket_rust.Borrowck.Liveness.Sets.{Has}
use pocket_rust.Borrowck.Liveness.Sets.Sorted.{IsSorted}
use pocket_rust.Borrowck.Liveness.Flow.{
  LiveIn, in_of, AllSorted, transfer_block-LiveIn, transfer_block-IsSorted, transfer_block-grows,
}

-- What a round computes for a block.
abbrev pub in_next : Cfg → List LiveSet → BlockId → LiveSet
in_next cfg block_in b = transfer_block (block_at cfg b) (live_out cfg block_in b)

-- The sets at the starts of the blocks are sorted, hold live locals only, and never shrink.
pub record GoodSets (cfg : Cfg) (block_in : List LiveSet) : Type 0 where
  pub size : length block_in ≡ length cfg.blocks
  pub sorted : AllSorted block_in
  pub live : (b : BlockId) (l : LocalId) → Has (in_of block_in b) l → LiveIn cfg l b
  pub rising :
      (b : BlockId) (l : LocalId) → Has (in_of block_in b) l → Has (in_next cfg block_in b) l

set-grows :
    (cfg : Cfg) (block_in : List LiveSet) (b : BlockId)
    → b < length cfg.blocks
    → GoodSets cfg block_in
    → (l : LocalId) (s : BlockId) → Has (in_of block_in s) l
    → Has (in_of (set block_in b (in_next cfg block_in b)) s) l
set-grows cfg block_in b h g l =
    get_or-set_cases (λ s x. Has (in_of block_in s) l → Has x l) block_in b (in_next cfg block_in b)
      empty (omega (arith, g.size)) (g.rising b l) (λ s other p. p)

pub GoodSets-set :
    (cfg : Cfg) (block_in : List LiveSet) (b : BlockId)
    → b < length cfg.blocks
    → GoodSets cfg block_in
    → GoodSets cfg (set block_in b (in_next cfg block_in b))
GoodSets-set cfg block_in b h g =
    let lt : b < length block_in = omega (arith, g.size) in
    let sorted : AllSorted (set block_in b (in_next cfg block_in b)) =
      get_or-set_cases (λ c x. IsSorted x.locals) block_in b (in_next cfg block_in b) empty lt
        (transfer_block-IsSorted cfg block_in b g.sorted) (λ c other. g.sorted c) in
    record {
      size = length-set block_in b (in_next cfg block_in b) ∙ g.size;
      sorted = sorted;
      live = λ c l.
          get_or-set_cases (λ c x. Has x l → LiveIn cfg l c) block_in b (in_next cfg block_in b)
            empty lt (transfer_block-LiveIn cfg block_in b l g.sorted (λ s. g.live s l))
            (λ c other. g.live c l) c;
      rising = λ c l.
          let grow : (d : BlockId)
              → Has (in_next cfg block_in d) l
              → Has (in_next cfg (set block_in b (in_next cfg block_in b)) d) l =
            λ d.
              transfer_block-grows cfg block_in (set block_in b (in_next cfg block_in b)) d l
                g.sorted sorted (set-grows cfg block_in b h g l) in
          get_or-set_cases
            (λ d x. Has x l → Has (in_next cfg (set block_in b (in_next cfg block_in b)) d) l)
            block_in b (in_next cfg block_in b) empty lt (grow b)
            (λ d other p. grow d (g.rising d l p)) c;
    }
