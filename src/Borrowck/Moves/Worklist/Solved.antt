-- ===== src/Borrowck/Moves/Worklist/Solved.antt =====
-- What the rounds of analyze reach.
use pocket_rust.Prelude.{
  ◌≡◌, ◌⊎◌, inl, inr, refl, sym, ap, ◌∙◌, ◌<◌, Bool, false, not, List, ◌∷◌, ◌++◌, String, length,
  length-set, length-replicate, get_or, set, for_each, if◌then◌else◌, Bool-cases,
}
use mathlib.Core.Logic.{⊎_elim}
use mathlib.Core.Path.{subst}
use mathlib.Core.List.{Memᴰ}
use pocket_rust.Typeck.Types.{RType}
use pocket_rust.Borrowck.Cfg.{BlockId, Cfg}
use pocket_rust.Borrowck.Liveness.{successors, block_at}
use pocket_rust.Borrowck.Liveness.Preds.{InRange}
use pocket_rust.Borrowck.Liveness.Queue.{Flagged, Flagged-pop, stacked, Flagged-start}
use pocket_rust.Borrowck.Moves.{empty, equal}
use pocket_rust.Borrowck.Moves.Worklist.{
  Worklist, start, requeue, block_start, block_end, visit, Reached, started, visited,
}
use pocket_rust.Borrowck.Moves.Worklist.Queue.{requeue_all-Requeued}
use pocket_rust.Borrowck.Moves.Worklist.Settled.{Settled, Good}
use pocket_rust.Borrowck.Moves.Worklist.Rounds.{Good-same, changed-pending}

module _ (cfg : Cfg) (is_drop : RType → Bool) (file : String) (range : InRange cfg) where
  Good-requeue :
      (w : Worklist) (b : BlockId)
      → length w.block_in ≡ length cfg.blocks
      → length w.block_out ≡ length cfg.blocks
      → Flagged (length cfg.blocks) w.on_work w.work
      → ((c : BlockId)
          → c < length cfg.blocks
          → Memᴰ c (successors (block_at cfg b).terminator)
            ⊎ Memᴰ c w.work
            ⊎ Settled cfg is_drop file w.block_in w.block_out c)
      → Good cfg is_drop file (for_each requeue w (successors (block_at cfg b).terminator))
  Good-requeue w b ins outs flagged pending =
      let succs = successors (block_at cfg b).terminator in
      let r = requeue_all-Requeued (length cfg.blocks) w succs (λ s m. range b s m) flagged in
      let w' = for_each requeue w succs in
      record {
        in_size = ap length (sym r.same_in) ∙ ins;
        out_size = ap length (sym r.same_out) ∙ outs;
        flagged = r.flagged;
        pending = λ c hc.
            ⊎_elim (λ m. inl (r.queued c m))
              (⊎_elim (λ m. inl (r.kept c m))
                (λ s. inr (
                  subst (λ x. Settled cfg is_drop file x w'.block_out c) r.same_in
                    (subst (λ x. Settled cfg is_drop file w.block_in x c) r.same_out s))))
              (pending c hc);
      }

  Good-visit :
      (b : BlockId) (work : List BlockId) (w : Worklist)
      → w.work ≡ b ∷ work
      → Good cfg is_drop file w
      → Good cfg is_drop file (visit cfg is_drop file b work w)
  unfolding visit
  Good-visit b work w e g =
      let new_in = block_start cfg w.block_out b in
      let after = block_end cfg is_drop file new_in w.move_sites_raw b in
      let same : Worklist = record {
        block_in = set w.block_in b new_in;
        block_out = w.block_out;
        errors = w.errors ++ after.errors;
        move_sites_raw = after.move_sites;
        on_work = set w.on_work b false;
        work = work;
      } in
      let changed : Worklist = record same { block_out = set w.block_out b after.state } in
      let succs = successors (block_at cfg b).terminator in
      let after_round : Bool → Worklist =
        λ t. if not t then for_each requeue changed succs else same in
      let flagged = subst (λ xs. Flagged (length cfg.blocks) w.on_work xs) e g.flagged in
      elim (Bool-cases (equal (get_or w.block_out b empty) after.state)) [
        | inl q ↦
            subst (λ t. Good cfg is_drop file (after_round t)) (sym q)
              (Good-same cfg is_drop file range b work w same e g refl refl refl refl q)
        | inr q ↦
            subst (λ t. Good cfg is_drop file (after_round t)) (sym q)
              (Good-requeue changed b (length-set w.block_in b new_in ∙ g.in_size)
                (length-set w.block_out b after.state ∙ g.out_size) (Flagged-pop b work flagged)
                (λ c hc. changed-pending cfg is_drop file range b c work w e g hc))
      ]

  Reached-Good : {w : Worklist} → Reached cfg is_drop file w → Good cfg is_drop file w
  unfolding start
  Reached-Good started =
      let n = length cfg.blocks in
      record {
        in_size = length-replicate n empty;
        out_size = length-replicate n empty;
        flagged = Flagged-start n;
        pending = λ b h. inl ((stacked n b).1 h);
      }
  Reached-Good (visited {w = w} {b = b} {work = work} r e) = Good-visit b work w e (Reached-Good r)

-- In a graph whose successors are blocks of it, after any number of rounds of the move analysis, each
-- block is on the worklist, or it satisfies the equations of the analysis: it begins with the empty set
-- if it is the entry and otherwise with the merge of the sets that its predecessors end with, and the set
-- it ends with is the one that its statements and its terminator lead to from there, by `equal`.
pub Reached-Settled :
    (cfg : Cfg) (is_drop : RType → Bool) (file : String)
    → InRange cfg
    → (w : Worklist) → Reached cfg is_drop file w
    → (b : BlockId) → b < length cfg.blocks
    → Memᴰ b w.work ⊎ Settled cfg is_drop file w.block_in w.block_out b
Reached-Settled cfg is_drop file range w r b h = (Reached-Good cfg is_drop file range r).pending b h
