-- ===== src/Borrowck/Moves/Worklist/Queue.antt =====
-- The requeuing of blocks: what is on the stack, and that the sets stay. On the stack and the flags it
-- is that of the liveness analysis.
use pocket_rust.Prelude.{
  ◌≡◌, refl, ap, ◌∙◌, inl, inr, sym, ℕ, ◌<◌, Bool-cases, false, List, [], ◌∷◌, for_each, get_or,
}
use mathlib.Core.Path.{subst}
use mathlib.Core.List.{Memᴰ}
use pocket_rust.Borrowck.Cfg.{BlockId}
use pocket_rust.Borrowck.Liveness.{Worklist as LiveWorklist, requeue as live_requeue}
use pocket_rust.Borrowck.Liveness.Queue.{Flagged, Requeued-all}
use pocket_rust.Borrowck.Moves.Worklist.{Worklist, requeue}

abbrev queue_of : Worklist → LiveWorklist
queue_of w = record { block_in = []; block_out = []; on_work = w.on_work; work = w.work }

requeue_queue : (w : Worklist) (s : BlockId) → queue_of (requeue w s) ≡ live_requeue (queue_of w) s
requeue_queue w s = elim (Bool-cases (get_or w.on_work s false)) [
  | inl e ↦ rw e refl
  | inr e ↦ rw e refl
]

requeue_all_queue :
    (w : Worklist) (bs : List BlockId)
    → queue_of (for_each requeue w bs) ≡ for_each live_requeue (queue_of w) bs
unfolding for_each
requeue_all_queue w [] = refl
requeue_all_queue w (b ∷ bs) =
    requeue_all_queue (requeue w b) bs ∙ ap (λ q. for_each live_requeue q bs) (requeue_queue w b)

abbrev SameSets : Worklist → Worklist → Type 0
SameSets w w' = (w.block_in ≡ w'.block_in) × (w.block_out ≡ w'.block_out)

requeue-SameSets : (w : Worklist) (s : BlockId) → SameSets w (requeue w s)
requeue-SameSets w s = elim (Bool-cases (get_or w.on_work s false)) [
  | inl e ↦ rw e (refl, refl)
  | inr e ↦ rw e (refl, refl)
]

requeue_all-SameSets : (w : Worklist) (bs : List BlockId) → SameSets w (for_each requeue w bs)
unfolding for_each
requeue_all-SameSets w [] = (refl, refl)
requeue_all-SameSets w (b ∷ bs) =
    let one = requeue-SameSets w b in
    let rest = requeue_all-SameSets (requeue w b) bs in (one.0 ∙ rest.0, one.1 ∙ rest.1)

-- What the loop over `blocks` does to the worklist.
pub record Requeued (n : ℕ) (blocks : List BlockId) (w w' : Worklist) : Type 0 where
  pub same_in : w.block_in ≡ w'.block_in
  pub same_out : w.block_out ≡ w'.block_out
  pub flagged : Flagged n w'.on_work w'.work
  pub kept : (b : BlockId) → Memᴰ b w.work → Memᴰ b w'.work
  pub queued : (b : BlockId) → Memᴰ b blocks → Memᴰ b w'.work

pub requeue_all-Requeued :
    (n : ℕ) (w : Worklist) (blocks : List BlockId)
    → ((b : BlockId) → Memᴰ b blocks → b < n)
    → Flagged n w.on_work w.work
    → Requeued n blocks w (for_each requeue w blocks)
requeue_all-Requeued n w blocks h f =
    let r = Requeued-all n (queue_of w) blocks h f in
    let e = requeue_all_queue w blocks in
    let (ins, outs) = requeue_all-SameSets w blocks in
    record {
      same_in = ins;
      same_out = outs;
      flagged = subst (λ q. Flagged n q.on_work q.work) (sym e) r.flagged;
      kept = λ b m. subst (λ q. Memᴰ b q.work) (sym e) (r.kept b m);
      queued = λ b m. subst (λ q. Memᴰ b q.work) (sym e) (r.queued b m);
    }
