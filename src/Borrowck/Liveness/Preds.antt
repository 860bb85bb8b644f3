-- ===== src/Borrowck/Liveness/Preds.antt =====
-- `compute_predecessors` inverts `successors`.
use pocket_rust.Prelude.{
  ℕ, suc, ◌<◌, ◌≡◌, ◌↔◌, ◌⊎◌, inl, inr, refl, sym, ◌∙◌, List, [], ◌∷◌, for_each, for_range_rule,
  get_or, set, replicate, push, length, length-set, length-replicate, get_or-set, get_or-replicate,
  push-Memᴰ, arith,
}
use mathlib.Core.List.{Memᴰ}
use mathlib.Core.List.Memᴰ
use mathlib.Core.Logic.{⊎_elim}
use mathlib.Core.Path.{subst}
use native.Mathlib.Decide.{dec_lt, ℕ_discrete}
use pocket_rust.Borrowck.Cfg.{BlockId, Cfg}
use pocket_rust.Borrowck.Liveness.{successors, block_at, compute_predecessors}

-- Every successor is a block of the graph.
abbrev pub InRange : Cfg → Type 0
InRange cfg =
    (b s : BlockId) → Memᴰ s (successors (block_at cfg b).terminator) → s < length cfg.blocks

abbrev add_pred : BlockId → List (List BlockId) → BlockId → List (List BlockId)
add_pred b preds s = set preds s (push (get_or preds s []) b)

-- The inner loop, for a block `b` and its successors.
record Extends (b : BlockId) (succs : List BlockId) (before after : List (List BlockId))
    : Type 0 where
  same_size : length after ≡ length before
  grown : (c s : BlockId) → Memᴰ c (get_or before s []) → Memᴰ c (get_or after s [])
  added : (s : BlockId) → Memᴰ s succs → Memᴰ b (get_or after s [])
  nothing_else :
      (c s : BlockId)
      → Memᴰ c (get_or after s [])
      → Memᴰ c (get_or before s []) ⊎ ((c ≡ b) × Memᴰ s succs)

read_added :
    (b s t : BlockId) (preds : List (List BlockId))
    → s < length preds
    → (c : BlockId)
    → Memᴰ c (get_or (add_pred b preds s) t []) ↔ (Memᴰ c (get_or preds t []) ⊎ ((c ≡ b) × (s ≡ t)))
read_added b s t preds h c =
    let e = get_or-set preds s t (push (get_or preds s []) b) [] h in
    elim (ℕ_discrete s t) [
      | yes same ↦
          let f : get_or (add_pred b preds s) t [] ≡ push (get_or preds t []) b =
            subst (λ u. get_or (add_pred b preds s) u [] ≡ push (get_or preds u []) b) same
              (ground (arith, get_or-set preds s s (push (get_or preds s []) b) [] h)) in
          let g = push-Memᴰ (get_or preds t []) b c in
          (
            λ m. ⊎_elim (λ k. inl k) (λ x. inr (x, same)) (g.0 (subst (λ xs. Memᴰ c xs) f m)),
            λ m. subst (λ xs. Memᴰ c xs) (sym f) (g.1 (⊎_elim (λ k. inl k) (λ x. inr x.0) m)),
          )
      | no other ↦
          let f : get_or (add_pred b preds s) t [] ≡ get_or preds t [] = ground (arith, e) in
          (
            λ m. inl (subst (λ xs. Memᴰ c xs) f m),
            λ m. subst (λ xs. Memᴰ c xs) (sym f) (⊎_elim (λ k. k) (λ x. absurd (other x.1)) m),
          )
    ]

Extends-loop :
    (b : BlockId) (succs : List BlockId) (preds : List (List BlockId))
    → ((s : BlockId) → Memᴰ s succs → s < length preds)
    → Extends b succs preds (for_each (add_pred b) preds succs)
unfolding for_each
Extends-loop b [] preds h = record {
  same_size = refl;
  grown = λ c s m. m;
  added = λ s m. absurd (Memᴰ.not-nil m);
  nothing_else = λ c s m. inl m;
}
Extends-loop b (s ∷ succs) preds h =
    let here = h s (Memᴰ.head refl) in
    let size = length-set preds s (push (get_or preds s []) b) in
    let rest =
      Extends-loop b succs (add_pred b preds s)
        (λ t m. subst (λ n. t < n) (sym size) (h t (Memᴰ.tail m))) in
    record {
      same_size = rest.same_size ∙ size;
      grown = λ c t m. rest.grown c t ((read_added b s t preds here c).1 (inl m));
      added = λ t m.
          ⊎_elim (λ e. rest.grown b t ((read_added b s t preds here b).1 (inr (refl, sym e))))
            (λ m'. rest.added t m') (Memᴰ.cases_cons m);
      nothing_else = λ c t m.
          ⊎_elim
            (λ k.
              ⊎_elim (λ p. inl p) (λ q. inr (q.0, Memᴰ.head (sym q.1)))
                ((read_added b s t preds here c).0 k))
            (λ e. inr (e.0, Memᴰ.tail e.1)) (rest.nothing_else c t m);
    }

-- The outer loop.
record Inverts (cfg : Cfg) (i : ℕ) (preds : List (List BlockId)) : Type 0 where
  pub size : length preds ≡ length cfg.blocks
  pub complete :
      (c s : BlockId)
      → c < i
      → Memᴰ s (successors (block_at cfg c).terminator)
      → Memᴰ c (get_or preds s [])
  pub inside : (c s : BlockId) → Memᴰ c (get_or preds s []) → c < i
  pub sound :
      (c s : BlockId) → Memᴰ c (get_or preds s []) → Memᴰ s (successors (block_at cfg c).terminator)

abbrev with_block : Cfg → BlockId → List (List BlockId) → List (List BlockId)
with_block cfg b preds = for_each (add_pred b) preds (successors (block_at cfg b).terminator)

Inverts-round :
    (cfg : Cfg)
    → InRange cfg
    → (i : ℕ) (preds : List (List BlockId)) → i < length cfg.blocks
    → Inverts cfg i preds
    → Inverts cfg (suc i) (with_block cfg i preds)
Inverts-round cfg range i preds h r =
    let x =
      Extends-loop i (successors (block_at cfg i).terminator) preds
        (λ s m. omega (arith, range i s m, r.size)) in
    record {
      size = x.same_size ∙ r.size;
      complete = λ c s lt m. elim (dec_lt c i) [
        | yes before ↦ x.grown c s (r.complete c s before m)
        | no now ↦
            let e : i ≡ c = omega arith in
            subst (λ d. Memᴰ d (get_or (with_block cfg i preds) s [])) e
              (x.added s (subst (λ d. Memᴰ s (successors (block_at cfg d).terminator)) (sym e) m))
      ];
      inside = λ c s m.
          ⊎_elim (λ k. omega (arith, r.inside c s k)) (λ e. omega (arith, e.0))
            (x.nothing_else c s m);
      sound = λ c s m.
          ⊎_elim (λ k. r.sound c s k)
            (λ e. subst (λ d. Memᴰ s (successors (block_at cfg d).terminator)) (sym e.0) e.1)
            (x.nothing_else c s m);
    }

Inverts-start : (cfg : Cfg) → Inverts cfg 0 (replicate (length cfg.blocks) [])
Inverts-start cfg = record {
  size = length-replicate (length cfg.blocks) [];
  complete = λ c s h m. absurd (omega arith);
  inside = λ c s m.
      absurd (Memᴰ.not-nil (subst (λ xs. Memᴰ c xs) (get_or-replicate (length cfg.blocks) s []) m));
  sound = λ c s m.
      absurd (Memᴰ.not-nil (subst (λ xs. Memᴰ c xs) (get_or-replicate (length cfg.blocks) s []) m));
}

compute_predecessors-Inverts :
    (cfg : Cfg) → InRange cfg → Inverts cfg (length cfg.blocks) (compute_predecessors cfg)
unfolding compute_predecessors
compute_predecessors-Inverts cfg range =
    for_range_rule (Inverts cfg) (with_block cfg) (length cfg.blocks) (Inverts-round cfg range)
      (length cfg.blocks) 0 (replicate (length cfg.blocks) []) (omega arith) (Inverts-start cfg)

-- `b` is among the predecessors of each of its successors.
pub compute_predecessors-complete :
    (cfg : Cfg)
    → InRange cfg
    → (b s : BlockId) → b < length cfg.blocks
    → Memᴰ s (successors (block_at cfg b).terminator)
    → Memᴰ b (get_or (compute_predecessors cfg) s [])
compute_predecessors-complete cfg range b s h m =
    (compute_predecessors-Inverts cfg range).complete b s h m

pub compute_predecessors-inside :
    (cfg : Cfg)
    → InRange cfg
    → (b s : BlockId) → Memᴰ b (get_or (compute_predecessors cfg) s [])
    → b < length cfg.blocks
compute_predecessors-inside cfg range b s m = (compute_predecessors-Inverts cfg range).inside b s m

pub compute_predecessors-sound :
    (cfg : Cfg)
    → InRange cfg
    → (b s : BlockId) → Memᴰ b (get_or (compute_predecessors cfg) s [])
    → Memᴰ s (successors (block_at cfg b).terminator)
compute_predecessors-sound cfg range b s m = (compute_predecessors-Inverts cfg range).sound b s m
