-- ===== src/Borrowck/Liveness/Ends.antt =====
-- The worklist loop ends: a visit that requeues blocks enlarges a set, and the sets are bounded.
use pocket_rust.Prelude.{
  ℕ, zero, suc, ◌+◌, ◌-◌, ◌*◌, ◌<◌, ◌≤◌, ◌≡◌, ◌⊎◌, inl, inr, refl, sym, ap, ◌∙◌, false, Bool-cases,
  Option, some, List, [], ◌∷◌, for_each, get_or, set, length, arith,
}
use mathlib.Core.List.{Memᴰ}
use mathlib.Core.Logic.{⊎_elim}
use mathlib.Core.Path.{subst}
use native.Mathlib.Nat.{mul-le-mul_right, suc-mul}
use pocket_rust.Borrowck.Cfg.{BlockId, Cfg}
use pocket_rust.Borrowck.Liveness.{
  LiveSet, equal, compute_predecessors, Worklist, requeue, live_out, visit, work_loop,
}
use pocket_rust.Borrowck.Liveness.Sets.{equal_iff, contains-member}
use pocket_rust.Borrowck.Liveness.Sets.Size.{length-below, length-grows}
use pocket_rust.Borrowck.Liveness.Flow.{in_of, transfer_block-IsSorted}
use pocket_rust.Borrowck.Liveness.Preds.{InRange, compute_predecessors-inside}
use pocket_rust.Borrowck.Liveness.Queue.{Flagged, Flagged-pop, Requeued-all}
use pocket_rust.Borrowck.Liveness.Growth.{in_next, GoodSets, GoodSets-set}
use pocket_rust.Borrowck.Liveness.Rounds.{Good, Good-visit}
use pocket_rust.Borrowck.Liveness.Bound.{
  LocalsInRange, Live-below, total, total-set, total-below, edges, edges-bound,
}

-- One round of the loop.
work_loop-round :
    (fuel : ℕ) (cfg : Cfg) (preds : List (List BlockId)) (w : Worklist) {work : List BlockId}
    → w.work ≡ work
    → work_loop (suc fuel) cfg preds w ≡ (elim work as (λ y. Option Worklist) [
      | [] ↦ some w
      | b ∷ rest ↦ work_loop fuel cfg preds (visit cfg preds b rest w)
    ])
unfolding work_loop
work_loop-round fuel cfg preds w e =
    ap
      (λ xs. elim xs as (λ y. Option Worklist) [
        | [] ↦ some w
        | b ∷ rest ↦ work_loop fuel cfg preds (visit cfg preds b rest w)
      ])
      e

module _ (cfg : Cfg) (range : InRange cfg) (locals : LocalsInRange cfg) where
  abbrev pub room : ℕ
  room = length cfg.blocks * length cfg.locals

  abbrev pub fan : ℕ
  fan = edges (compute_predecessors cfg)

  total-room : (sets : List LiveSet) → GoodSets cfg sets → total sets ≤ room
  total-room sets g =
      subst (λ k. total sets ≤ k * length cfg.locals) g.size
        (total-below sets (length cfg.locals) (λ b.
          length-below (in_of sets b).locals (length cfg.locals) (g.sorted b) (λ m p.
            Live-below cfg m locals (λ stmt i r. locals.stmts b stmt m i r) (locals.terminators b m)
              (g.live b m (contains-member (in_of sets b) m ∙ p)))))

  -- A set that is replaced by a different one grows.
  total-grows :
      (sets : List LiveSet) (b : BlockId)
      → b < length cfg.blocks
      → GoodSets cfg sets
      → (in_next cfg sets b ≡ in_of sets b → ⊥)
      → total sets < total (set sets b (in_next cfg sets b))
  total-grows sets b h g differs =
      let old = in_of sets b in
      let new = in_next cfg sets b in
      let sum = total-set sets b new (omega (arith, g.size)) in
      ⊎_elim (λ e. absurd (differs (ap (λ xs. record { locals = xs }) (sym e))))
        (λ lt. omega (arith, lt, sum))
        (length-grows old.locals new.locals (g.sorted b)
          (transfer_block-IsSorted cfg sets b g.sorted)
          (λ m p. sym (contains-member new m) ∙ g.rising b m (contains-member old m ∙ p)))

  -- The work left: the blocks on the stack, and for each element that a set lacks all edges.
  pub record Closer (slack : ℕ) (size : ℕ) (w : Worklist) : Type 0 where
    pub left : ℕ
    pub balance : left + total w.block_in ≡ room
    pub less : length w.work + left * fan < size + slack * fan

  Closer-changed :
      (b : BlockId) (work : List BlockId) (w : Worklist) (slack : ℕ)
      → b < length cfg.blocks
      → Good cfg w
      → Flagged (length cfg.blocks) (set w.on_work b false) work
      → slack + total w.block_in ≡ room
      → (in_next cfg w.block_in b ≡ in_of w.block_in b → ⊥)
      → Closer slack (suc (length work)) (
          for_each requeue
            (record {
              block_in = set w.block_in b (in_next cfg w.block_in b);
              block_out = set w.block_out b (live_out cfg w.block_in b);
              on_work = set w.on_work b false;
              work = work;
            })
            (get_or (compute_predecessors cfg) b []))
  Closer-changed b work w slack h g popped balance differs =
      let ins = set w.block_in b (in_next cfg w.block_in b) in
      let r =
        Requeued-all (length cfg.blocks)
          (record {
            block_in = ins;
            block_out = set w.block_out b (live_out cfg w.block_in b);
            on_work = set w.on_work b false;
            work = work;
          })
          (get_or (compute_predecessors cfg) b [])
          (λ c m. compute_predecessors-inside cfg range c b m) popped in
      let grown = total-grows w.block_in b h g.sets differs in
      let fits = total-room ins (GoodSets-set cfg w.block_in b h g.sets) in
      let left = room - total ins in
      let sum : left + total ins ≡ room = omega (arith, fits) in
      let step : suc left ≤ slack = omega (arith, grown, sum, balance) in
      record {
        left = left;
        balance = ap (λ x. left + total x) r.same_in ∙ sum;
        less = omega (
          arith,
          r.longer,
          edges-bound (compute_predecessors cfg) b,
          mul-le-mul_right fan step,
          suc-mul left fan,
        );
      }

  Closer-visit :
      (b : BlockId) (work : List BlockId) (w : Worklist) (slack : ℕ)
      → w.work ≡ b ∷ work
      → Good cfg w
      → slack + total w.block_in ≡ room
      → Closer slack (suc (length work)) (visit cfg (compute_predecessors cfg) b work w)
  unfolding visit
  Closer-visit b work w slack e g balance =
      let flagged = subst (λ xs. Flagged (length cfg.blocks) w.on_work xs) e g.flagged in
      let h = flagged.inside b (Memᴰ.head refl) in
      let same = equal_iff (in_next cfg w.block_in b) (in_of w.block_in b) in
      elim (Bool-cases (equal (in_next cfg w.block_in b) (in_of w.block_in b))) [
        | inl yes_same ↦
            rw yes_same (record { left = slack; balance = balance; less = omega arith })
        | inr differs ↦ rw differs (
            Closer-changed b work w slack h g (Flagged-pop b work flagged) balance
              (λ q. let p = same.1 q in absurd (cc)))
      ]

  -- The loop comes to an end, with an empty stack.
  pub record Ended (fuel : ℕ) (w : Worklist) : Type 0 where
    pub end : Worklist
    pub result : work_loop fuel cfg (compute_predecessors cfg) w ≡ some end
    pub good : Good cfg end
    pub empty_work : end.work ≡ []

  List-cases :
      (xs : List BlockId) → (xs ≡ []) ⊎ ((b : BlockId) × (rest : List BlockId) × (xs ≡ b ∷ rest))
  List-cases [] = inl refl
  List-cases (b ∷ rest) = inr (b, rest, refl)

  pub work_loop-Ended :
      (fuel : ℕ) (w : Worklist) (slack : ℕ)
      → Good cfg w
      → slack + total w.block_in ≡ room
      → length w.work + slack * fan < fuel
      → Ended fuel w
  unfolding work_loop
  work_loop-Ended zero w slack g balance h = absurd (omega arith)
  work_loop-Ended (suc fuel) w slack g balance h =
      ⊎_elim
        (λ e. record {
          end = w;
          result = work_loop-round fuel cfg (compute_predecessors cfg) w e;
          good = g;
          empty_work = e;
        })
        (λ (b, rest, e).
          let c = Closer-visit b rest w slack e g balance in
          let size = ap length e in
          let r =
            work_loop-Ended fuel (visit cfg (compute_predecessors cfg) b rest w) c.left
              (Good-visit cfg range b rest w e g) c.balance (omega (arith, c.less, size)) in
          record {
            end = r.end;
            result = work_loop-round fuel cfg (compute_predecessors cfg) w e ∙ r.result;
            good = r.good;
            empty_work = r.empty_work;
          })
        (List-cases w.work)
