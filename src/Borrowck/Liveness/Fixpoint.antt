-- ===== src/Borrowck/Liveness/Fixpoint.antt =====
-- What `analyze` returns.
use pocket_rust.Prelude.{
  ℕ, zero, suc, ◌+◌, ◌<◌, ◌≤◌, ◌≡◌, ◌↔◌, inl, refl, sym, ap, ◌∙◌, ◌>>=◌, some, List, [], ◌∷◌,
  for_each, for_range, get_or-beyond, get_or-replicate, replicate, length, length-replicate, arith,
}
use mathlib.Core.List.{Memᴰ}
use mathlib.Core.List.Memᴰ
use mathlib.Core.Logic.{⊎_elim}
use mathlib.Core.Path.{subst}
use native.Mathlib.Decide.{dec_lt}
use pocket_rust.Borrowck.Cfg.{BlockId, LocalId, Terminator, Cfg}
use pocket_rust.Borrowck.Liveness.{
  LiveSet, empty, Worklist, start, transfer_block, transfer_stmts, transfer_terminator, successors,
  analyze, LivenessAnalysis,
}
use pocket_rust.Borrowck.Liveness.Sets.{Has, empty-Has}
use pocket_rust.Borrowck.Liveness.Sets.Sorted.{IsSorted}
use pocket_rust.Borrowck.Liveness.Flow.{
  LiveIn, LiveOut, in_of, AllSorted, live_out-Has, live_out-IsSorted, LiveIn-Has,
}
use pocket_rust.Borrowck.Liveness.Queue.{stacked, Flagged-start}
use pocket_rust.Borrowck.Liveness.Preds.{InRange}
use pocket_rust.Borrowck.Liveness.Growth.{in_next, GoodSets}
use pocket_rust.Borrowck.Liveness.Rounds.{Settled, Good}
use pocket_rust.Borrowck.Liveness.Bound.{LocalsInRange, enough, total}
use pocket_rust.Borrowck.Liveness.Ends.{room, work_loop-Ended}

start_length :
    (n i : ℕ) (work : List ℕ) → length (for_range n i (λ b work. b ∷ work) work) ≡ n + length work
unfolding for_range
start_length zero i work = omega arith
start_length (suc n) i work = omega (arith, start_length n (i + 1) (i ∷ work))

no_sets : (n b : ℕ) → in_of (replicate n empty) b ≡ empty
no_sets n b = get_or-replicate n b empty

total-replicate : (n : ℕ) → total (replicate n empty) ≡ 0
total-replicate zero = refl
total-replicate (suc n) = omega (arith, total-replicate n)

GoodSets-start : (cfg : Cfg) → GoodSets cfg (replicate (length cfg.blocks) empty)
GoodSets-start cfg =
    let n = length cfg.blocks in
    let nothing : (b : BlockId) (l : LocalId) → Has (in_of (replicate n empty) b) l → ⊥ =
      λ b l h. empty-Has l (subst (λ s. Has s l) (no_sets n b) h) in
    record {
      size = length-replicate n empty;
      sorted = λ b. subst (λ s. IsSorted s.locals) (sym (no_sets n b)) tt;
      live = λ b l h. absurd (nothing b l h);
      rising = λ b l h. absurd (nothing b l h);
    }

Good-start : (cfg : Cfg) → Good cfg (start (length cfg.blocks))
Good-start cfg =
    let n = length cfg.blocks in
    record {
      sets = GoodSets-start cfg;
      out_size = length-replicate n empty;
      flagged = Flagged-start n;
      pending = λ b h. inl ((stacked n b).1 h);
    }

-- Behind the last block there is nothing.
beyond_next :
    (cfg : Cfg) (sets : List LiveSet) (b : BlockId)
    → length cfg.blocks ≤ b
    → in_next cfg sets b ≡ empty
unfolding transfer_block transfer_stmts transfer_terminator successors for_each
beyond_next cfg sets b h =
    rw (get_or-beyond cfg.blocks b (record { stmts = []; terminator = Terminator.unreachable }) h)
      refl

-- What the analysis finds.
pub record Finds (cfg : Cfg) (r : LivenessAnalysis) : Type 0 where
  pub at_start : (b : BlockId) (l : LocalId) → Has (in_of r.block_in b) l ↔ LiveIn cfg l b
  pub at_end :
      (b : BlockId) (l : LocalId)
      → b < length cfg.blocks
      → Has (in_of r.block_out b) l ↔ LiveOut cfg l b
  pub in_order : AllSorted r.block_in
  pub out_in_order : (b : BlockId) → b < length cfg.blocks → IsSorted (in_of r.block_out b).locals
  pub sizes : (length r.block_in ≡ length cfg.blocks) × (length r.block_out ≡ length cfg.blocks)

Finds-end :
    (cfg : Cfg) (w : Worklist)
    → Good cfg w
    → w.work ≡ []
    → Finds cfg (record { block_in = w.block_in; block_out = w.block_out })
Finds-end cfg w g e =
    let n = length cfg.blocks in
    let settled : (b : BlockId) → b < n → Settled cfg w.block_in w.block_out b = λ b h.
      ⊎_elim (λ m. absurd (Memᴰ.not-nil (subst (λ xs. Memᴰ b xs) e m))) (λ s. s) (g.pending b h) in
    let all : (b : BlockId) → in_of w.block_in b ≡ in_next cfg w.block_in b = λ b.
      elim (dec_lt b n) [
        | yes h ↦ (settled b h).at_start
        | no beyond ↦
            get_or-beyond w.block_in b empty (omega (arith, g.sets.size))
            ∙ sym (beyond_next cfg w.block_in b (omega arith))
      ] in
    let found : (b : BlockId) (l : LocalId) → LiveIn cfg l b → Has (in_of w.block_in b) l =
      λ b l. LiveIn-Has cfg w.block_in g.sets.sorted l all b in
    record {
      at_start = λ b l. (g.sets.live b l, found b l);
      at_end = λ b l h.
          let ends = live_out-Has w.block_in g.sets.sorted cfg b l in
          let same = (settled b h).at_end in
          (
            λ p. let (s, m, q) = ends.0 (subst (λ x. Has x l) same p) in (s, m, g.sets.live s l q),
            λ (s, m, q). subst (λ x. Has x l) (sym same) (ends.1 (s, m, found s l q)),
          );
      in_order = g.sets.sorted;
      out_in_order = λ b h.
          subst (λ x. IsSorted x.locals) (sym (settled b h).at_end)
            (live_out-IsSorted w.block_in g.sets.sorted cfg b);
      sizes = (g.sets.size, g.out_size);
    }

-- On a graph whose block ids and local ids are all in range, and with enough rounds, `analyze` returns, and a
-- local is in the set at the start or the end of a block exactly when it is live there.
pub analyze-Finds :
    (cfg : Cfg) (fuel : ℕ)
    → InRange cfg
    → LocalsInRange cfg
    → enough cfg ≤ fuel
    → (r : LivenessAnalysis) × (analyze fuel cfg ≡ some r) × Finds cfg r
unfolding analyze
analyze-Finds cfg fuel range locals h =
    let n = length cfg.blocks in
    let done =
      work_loop-Ended cfg range locals fuel (start n) (room cfg range locals) (Good-start cfg)
        (omega (arith, total-replicate n)) (omega (arith, start_length n 0 [])) in
    let w = done.end in
    (
      record { block_in = w.block_in; block_out = w.block_out },
      ap (λ o. o >>= (λ w. some (record { block_in = w.block_in; block_out = w.block_out })))
          done.result,
      Finds-end cfg w done.good done.empty_work,
    )
