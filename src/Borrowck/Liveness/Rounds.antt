-- ===== src/Borrowck/Liveness/Rounds.antt =====
-- The invariant of the worklist: what is not on the stack satisfies the equations.
use pocket_rust.Prelude.{
  Memᴰ-cases, ◌<◌, ◌≡◌, ◌⊎◌, inl, inr, refl, sym, ap, ◌∙◌, false, Bool-cases, List, [], ◌∷◌,
  for_each, get_or, get_or-set_same, get_or-set_other, set, length, length-set, arith,
}
use mathlib.Core.List.{Memᴰ}
use mathlib.Core.List.Memᴰ
use mathlib.Core.Logic.{⊎_elim}
use mathlib.Core.Path.{subst}
use native.Mathlib.Decide.{ℕ_discrete}
use pocket_rust.Borrowck.Cfg.{BlockId, Cfg}
use pocket_rust.Borrowck.Liveness.{
  LiveSet, empty, union, equal, transfer_block, successors, block_at, compute_predecessors,
  Worklist, requeue, live_out, visit,
}
use pocket_rust.Borrowck.Liveness.Sets.{equal_iff}
use pocket_rust.Borrowck.Liveness.Flow.{in_of}
use pocket_rust.Borrowck.Liveness.Preds.{
  InRange, compute_predecessors-complete, compute_predecessors-inside,
}
use pocket_rust.Borrowck.Liveness.Queue.{Flagged, Flagged-pop, Requeued-all}
use pocket_rust.Borrowck.Liveness.Growth.{in_next, GoodSets, GoodSets-set}

-- The sets of the block satisfy the equations of the analysis.
pub record Settled (cfg : Cfg) (block_in block_out : List LiveSet) (b : BlockId) : Type 0 where
  pub at_start : in_of block_in b ≡ in_next cfg block_in b
  pub at_end : in_of block_out b ≡ live_out cfg block_in b

-- A block's end reads the sets of its successors only.
joined-set :
    (block_in : List LiveSet) (b : BlockId) (v acc : LiveSet) (succs : List BlockId)
    → b < length block_in
    → (Memᴰ b succs → ⊥)
    → for_each (λ acc s. union acc (get_or (set block_in b v) s empty)) acc succs
      ≡ for_each (λ acc s. union acc (get_or block_in s empty)) acc succs
unfolding for_each
joined-set block_in b v acc [] h out = refl
joined-set block_in b v acc (s ∷ succs) h out =
    let e = get_or-set_other block_in b s v empty h (λ k. out (Memᴰ.head k)) in
    ap (λ x. for_each (λ acc s. union acc (get_or (set block_in b v) s empty)) (union acc x) succs)
      e
    ∙ joined-set block_in b v (union acc (get_or block_in s empty)) succs h (λ m. out (Memᴰ.tail m))

Settled-set :
    (cfg : Cfg) (block_in block_out : List LiveSet) (b c : BlockId) (v : LiveSet)
    → b < length block_in
    → (Memᴰ b (successors (block_at cfg c).terminator) → ⊥)
    → in_of (set block_in b v) c ≡ in_next cfg block_in c
    → in_of block_out c ≡ live_out cfg block_in c
    → Settled cfg (set block_in b v) block_out c
Settled-set cfg block_in block_out b c v h out p q =
    let e : live_out cfg (set block_in b v) c ≡ live_out cfg block_in c =
      joined-set block_in b v empty (successors (block_at cfg c).terminator) h out in
    record {
      at_start = p ∙ ap (λ x. transfer_block (block_at cfg c) x) (sym e);
      at_end = q ∙ sym e;
    }

Settled-copy :
    (cfg : Cfg) (b : BlockId) {block_in block_in' block_out block_out' : List LiveSet}
    → block_in ≡ block_in'
    → block_out ≡ block_out'
    → Settled cfg block_in block_out b
    → Settled cfg block_in' block_out' b
Settled-copy cfg b {block_in} {block_in'} {block_out} p q s =
    subst (λ x. Settled cfg block_in' x b) q (subst (λ x. Settled cfg x block_out b) p s)

pub record Good (cfg : Cfg) (w : Worklist) : Type 0 where
  pub sets : GoodSets cfg w.block_in
  pub out_size : length w.block_out ≡ length cfg.blocks
  pub flagged : Flagged (length cfg.blocks) w.on_work w.work
  pub pending :
      (b : BlockId) → b < length cfg.blocks → Memᴰ b w.work ⊎ Settled cfg w.block_in w.block_out b

module _ (cfg : Cfg) (range : InRange cfg) where
  -- A visit that changes the set of the block.
  Good-changed :
      (b : BlockId) (work : List BlockId) (w : Worklist)
      → b < length cfg.blocks
      → Good cfg w
      → Flagged (length cfg.blocks) (set w.on_work b false) work
      → ((c : BlockId) → Memᴰ c w.work → (c ≡ b) ⊎ Memᴰ c work)
      → Good cfg (
          for_each requeue
            (record {
              block_in = set w.block_in b (in_next cfg w.block_in b);
              block_out = set w.block_out b (live_out cfg w.block_in b);
              on_work = set w.on_work b false;
              work = work;
            })
            (get_or (compute_predecessors cfg) b []))
  Good-changed b work w h g flagged split =
      let ins = set w.block_in b (in_next cfg w.block_in b) in
      let outs = set w.block_out b (live_out cfg w.block_in b) in
      let lt : b < length w.block_in = omega (arith, g.sets.size) in
      let lt' : b < length w.block_out = omega (arith, g.out_size) in
      let r =
        Requeued-all (length cfg.blocks)
          (record {
            block_in = ins;
            block_out = outs;
            on_work = set w.on_work b false;
            work = work;
          })
          (get_or (compute_predecessors cfg) b [])
          (λ c m. compute_predecessors-inside cfg range c b m) flagged in
      let move_to = λ (c : BlockId) (s : Settled cfg ins outs c).
        Settled-copy cfg c (sym r.same_in) (sym r.same_out) s in
      record {
        sets = subst (GoodSets cfg) (sym r.same_in) (GoodSets-set cfg w.block_in b h g.sets);
        out_size =
            ap length r.same_out
            ∙ length-set w.block_out b (live_out cfg w.block_in b)
            ∙ g.out_size;
        flagged = r.flagged;
        pending = λ c hc.
            ⊎_elim (λ m. inl (r.queued c (compute_predecessors-complete cfg range c b hc m)))
              (λ out. elim (ℕ_discrete b c) [
                | yes same ↦ inr (
                    move_to c (
                      Settled-set cfg w.block_in outs b c (in_next cfg w.block_in b) lt out
                        (subst (λ d. in_of ins d ≡ in_next cfg w.block_in d) same
                          (get_or-set_same w.block_in b (in_next cfg w.block_in b) empty lt))
                        (subst (λ d. in_of outs d ≡ live_out cfg w.block_in d) same
                          (get_or-set_same w.block_out b (live_out cfg w.block_in b) empty lt'))))
                | no other ↦
                    ⊎_elim
                      (λ m.
                        inl (r.kept c (⊎_elim (λ e. absurd (other (sym e))) (λ k. k) (split c m))))
                      (λ s. inr (
                        move_to c (
                          Settled-set cfg w.block_in outs b c (in_next cfg w.block_in b) lt out
                            (get_or-set_other w.block_in b c (in_next cfg w.block_in b) empty lt
                                other
                              ∙ s.at_start)
                            (get_or-set_other w.block_out b c (live_out cfg w.block_in b) empty lt'
                                other
                              ∙ s.at_end))))
                      (g.pending c hc)
              ])
              (Memᴰ-cases b (successors (block_at cfg c).terminator));
      }

  Good-unchanged :
      (b : BlockId) (work : List BlockId) (w : Worklist)
      → b < length cfg.blocks
      → Good cfg w
      → in_next cfg w.block_in b ≡ in_of w.block_in b
      → Flagged (length cfg.blocks) (set w.on_work b false) work
      → ((c : BlockId) → Memᴰ c w.work → (c ≡ b) ⊎ Memᴰ c work)
      → Good cfg (record {
        block_in = w.block_in;
        block_out = set w.block_out b (live_out cfg w.block_in b);
        on_work = set w.on_work b false;
        work = work;
      })
  Good-unchanged b work w h g same flagged split =
      let outs = set w.block_out b (live_out cfg w.block_in b) in
      let lt' : b < length w.block_out = omega (arith, g.out_size) in
      record {
        sets = g.sets;
        out_size = length-set w.block_out b (live_out cfg w.block_in b) ∙ g.out_size;
        flagged = flagged;
        pending = λ c hc. elim (ℕ_discrete b c) [
          | yes e ↦ inr (record {
            at_start = subst (λ d. in_of w.block_in d ≡ in_next cfg w.block_in d) e (sym same);
            at_end =
                subst (λ d. in_of outs d ≡ live_out cfg w.block_in d) e
                  (get_or-set_same w.block_out b (live_out cfg w.block_in b) empty lt');
          })
          | no other ↦
              ⊎_elim (λ m. inl (⊎_elim (λ e. absurd (other (sym e))) (λ k. k) (split c m)))
                (λ s. inr (record {
                  at_start = s.at_start;
                  at_end =
                      get_or-set_other w.block_out b c (live_out cfg w.block_in b) empty lt' other
                      ∙ s.at_end;
                }))
                (g.pending c hc)
        ];
      }

  pub Good-visit :
      (b : BlockId) (work : List BlockId) (w : Worklist)
      → w.work ≡ b ∷ work
      → Good cfg w
      → Good cfg (visit cfg (compute_predecessors cfg) b work w)
  unfolding visit
  Good-visit b work w e g =
      let flagged = subst (λ xs. Flagged (length cfg.blocks) w.on_work xs) e g.flagged in
      let h = flagged.inside b (Memᴰ.head refl) in
      let popped = Flagged-pop b work flagged in
      let split : (c : BlockId) → Memᴰ c w.work → (c ≡ b) ⊎ Memᴰ c work =
        λ c m. Memᴰ.cases_cons (subst (λ xs. Memᴰ c xs) e m) in
      let same = equal_iff (in_next cfg w.block_in b) (in_of w.block_in b) in
      elim (Bool-cases (equal (in_next cfg w.block_in b) (in_of w.block_in b))) [
        | inl yes_same ↦ rw yes_same (Good-unchanged b work w h g (same.0 yes_same) popped split)
        | inr differs ↦ rw differs (Good-changed b work w h g popped split)
      ]
