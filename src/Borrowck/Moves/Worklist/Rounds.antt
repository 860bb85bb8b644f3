-- ===== src/Borrowck/Moves/Worklist/Rounds.antt =====
-- The rounds keep the equations, for each block that is not waiting.
use pocket_rust.Prelude.{
  Memᴰ-cases, ◌≡◌, ◌⊎◌, inl, inr, refl, sym, ap, ◌∙◌, ◌<◌, Bool, true, false, List, [], ◌∷◌, String,
  length, length-set, get_or, get_or-set_same, set, arith,
}
use mathlib.Core.Logic.{⊎_elim}
use mathlib.Core.Path.{subst}
use mathlib.Core.List.{Memᴰ}
use mathlib.Core.List.Memᴰ
use native.Mathlib.Decide.{ℕ_discrete}
use pocket_rust.Typeck.Types.{RType}
use pocket_rust.Borrowck.Cfg.{BlockId, Cfg}
use pocket_rust.Borrowck.Liveness.{successors, block_at, compute_predecessors}
use pocket_rust.Borrowck.Liveness.Preds.{InRange, compute_predecessors-sound}
use pocket_rust.Borrowck.Liveness.Queue.{Flagged, Flagged-pop}
use pocket_rust.Borrowck.Moves.{MoveSet, empty, equal}
use pocket_rust.Borrowck.Moves.Worklist.{Worklist, block_start, block_end}
use pocket_rust.Borrowck.Moves.Worklist.Settled.{
  equal_refl, block_start-set, end_state, Settled, any_sites, Settled-in, Settled-out, Good,
}

module _ (cfg : Cfg) (is_drop : RType → Bool) (file : String) (range : InRange cfg) where
  -- The block that is visited.
  Settled-here :
      (w : Worklist) (b : BlockId) (outs : List MoveSet)
      → let new_in = block_start cfg w.block_out b in
        b < length w.block_in
        → block_start cfg outs b ≡ new_in
        → equal (get_or outs b empty) (block_end cfg is_drop file new_in w.move_sites_raw b).state
          ≡ true
        → Settled cfg is_drop file (set w.block_in b new_in) outs b
  Settled-here w b outs h same_start same_end =
      let new_in = block_start cfg w.block_out b in
      let e = get_or-set_same w.block_in b new_in empty h in
      record {
        at_start = e ∙ sym same_start;
        at_end =
            subst (λ x. equal (get_or outs b empty) (end_state cfg is_drop file x b) ≡ true) (sym e)
              (subst (λ x. equal (get_or outs b empty) x ≡ true)
                (any_sites cfg is_drop file new_in w b) same_end);
      }

  -- A visit that leaves the end of the block as it is.
  pub Good-same :
      (b : BlockId) (work : List BlockId) (w w' : Worklist)
      → w.work ≡ b ∷ work
      → Good cfg is_drop file w
      → w'.block_in ≡ set w.block_in b (block_start cfg w.block_out b)
      → w'.block_out ≡ w.block_out
      → w'.on_work ≡ set w.on_work b false
      → w'.work ≡ work
      → equal
          (get_or w.block_out b empty)
          (block_end cfg is_drop file (block_start cfg w.block_out b) w.move_sites_raw b).state
        ≡ true
      → Good cfg is_drop file w'
  Good-same b work w w' e g ins outs flags rest same =
      let flagged = subst (λ xs. Flagged (length cfg.blocks) w.on_work xs) e g.flagged in
      let h = flagged.inside b (Memᴰ.head refl) in
      let lt : b < length w.block_in = omega (arith, g.in_size) in
      let new_in = block_start cfg w.block_out b in
      let move_to =
        λ (c : BlockId) (s : Settled cfg is_drop file (set w.block_in b new_in) w.block_out c).
          subst (λ x. Settled cfg is_drop file x w'.block_out c) (sym ins)
            (subst (λ x. Settled cfg is_drop file (set w.block_in b new_in) x c) (sym outs) s) in
      record {
        in_size = ap length ins ∙ length-set w.block_in b new_in ∙ g.in_size;
        out_size = ap length outs ∙ g.out_size;
        flagged =
            subst (λ xs. Flagged (length cfg.blocks) w'.on_work xs) (sym rest)
              (subst (λ xs. Flagged (length cfg.blocks) xs work) (sym flags)
                (Flagged-pop b work flagged));
        pending = λ c hc. elim (ℕ_discrete b c) [
          | yes here ↦ inr (
              move_to c (
                subst (λ d. Settled cfg is_drop file (set w.block_in b new_in) w.block_out d) here
                  (Settled-here w b w.block_out lt refl same)))
          | no other ↦
              ⊎_elim
                (λ m. inl (
                  ⊎_elim (λ k. absurd (other (sym k))) (λ k. subst (λ xs. Memᴰ c xs) (sym rest) k)
                    (Memᴰ.cases_cons (subst (λ xs. Memᴰ c xs) e m))))
                (λ s. inr (
                  move_to c
                    (Settled-in cfg is_drop file w.block_in w.block_out b c new_in lt other s)))
                (g.pending c hc)
        ];
      }

  -- A visit that changes the end of the block, before its successors are requeued: what is not one of
  -- them stays settled.
  pub changed-pending :
      (b c : BlockId) (work : List BlockId) (w : Worklist)
      → w.work ≡ b ∷ work
      → Good cfg is_drop file w
      → c < length cfg.blocks
      → let new_in = block_start cfg w.block_out b in
        let state = (block_end cfg is_drop file new_in w.move_sites_raw b).state in
        Memᴰ c (successors (block_at cfg b).terminator)
        ⊎ Memᴰ c work
        ⊎ Settled cfg is_drop file (set w.block_in b new_in) (set w.block_out b state) c
  changed-pending b c work w e g hc =
      let h = g.flagged.inside b (subst (λ xs. Memᴰ b xs) (sym e) (Memᴰ.head refl)) in
      let lt : b < length w.block_in = omega (arith, g.in_size) in
      let lt' : b < length w.block_out = omega (arith, g.out_size) in
      let new_in = block_start cfg w.block_out b in
      let state = (block_end cfg is_drop file new_in w.move_sites_raw b).state in
      let outs = set w.block_out b state in
      ⊎_elim (λ m. inl m)
        (λ out.
          let apart : Memᴰ b (get_or (compute_predecessors cfg) c []) → ⊥ =
            λ m. out (compute_predecessors-sound cfg range b c m) in
          elim (ℕ_discrete b c) [
            | yes here ↦
                let still : block_start cfg outs b ≡ new_in =
                  block_start-set cfg w.block_out b b state lt' (
                    subst (λ d. Memᴰ b (get_or (compute_predecessors cfg) d []) → ⊥) (sym here)
                      apart) in
                let read : equal (get_or outs b empty) state ≡ true =
                  ap (λ x. equal x state) (get_or-set_same w.block_out b state empty lt')
                  ∙ equal_refl state in
                inr (
                  inr (
                    subst (λ d. Settled cfg is_drop file (set w.block_in b new_in) outs d) here
                      (Settled-here w b outs lt still read)))
            | no other ↦
                ⊎_elim
                  (λ m. inr (
                    inl (
                      ⊎_elim (λ k. absurd (other (sym k))) (λ k. k)
                        (Memᴰ.cases_cons (subst (λ xs. Memᴰ c xs) e m)))))
                  (λ s. inr (
                    inr (
                      Settled-out cfg is_drop file (set w.block_in b new_in) w.block_out b c state
                        lt' other apart
                        (Settled-in cfg is_drop file w.block_in w.block_out b c new_in lt other
                          s))))
                  (g.pending c hc)
          ])
        (Memᴰ-cases c (successors (block_at cfg b).terminator))
