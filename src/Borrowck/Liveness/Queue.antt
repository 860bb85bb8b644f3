-- ===== src/Borrowck/Liveness/Queue.antt =====
-- The requeuing of blocks on the worklist.
use pocket_rust.Prelude.{
  ℕ, ◌+◌, ◌<◌, ◌≤◌, ◌≡◌, inl, inr, refl, sym, ◌∙◌, Bool, true, false, Bool-cases, List, [], ◌∷◌,
  ◌↔◌, false, for_range, for_range_rule, replicate, length-replicate, get_or-beyond, for_each,
  get_or, set, length, length-set, get_or-set, arith,
}
use mathlib.Core.List.{Memᴰ}
use mathlib.Core.List.Memᴰ
use mathlib.Core.Logic.{⊎_elim}
use mathlib.Core.Path.{subst}
use native.Mathlib.Decide.{dec_lt, ℕ_discrete}
use pocket_rust.Borrowck.Cfg.{BlockId}
use pocket_rust.Borrowck.Liveness.{Worklist, requeue}

-- Every flagged block is on the stack, and every block on the stack has a flag to set.
pub record Flagged (n : ℕ) (on_work : List Bool) (work : List BlockId) : Type 0 where
  pub size : length on_work ≡ n
  pub listed : (b : BlockId) → get_or on_work b false ≡ true → Memᴰ b work
  pub inside : (b : BlockId) → Memᴰ b work → b < n

-- A popped block loses its flag.
pub Flagged-pop :
    {n : ℕ} {on_work : List Bool} (b : BlockId) (work : List BlockId)
    → Flagged n on_work (b ∷ work)
    → Flagged n (set on_work b false) work
Flagged-pop {n} {on_work} b work f =
    let h = f.inside b (Memᴰ.head refl) in
    record {
      size = length-set on_work b false ∙ f.size;
      listed = λ c k.
          let e = get_or-set on_work b c false false (omega (arith, f.size)) in
          elim (ℕ_discrete b c) [
            | yes same ↦ absurd (ground arith)
            | no other ↦
                let k' : get_or on_work c false ≡ true = ground arith in
                ⊎_elim (λ e. absurd (other (sym e))) (λ m. m) (Memᴰ.cases_cons (f.listed c k'))
          ];
      inside = λ c m. f.inside c (Memᴰ.tail m);
    }

-- What the loop over `blocks` does to the worklist.
pub record Requeued (n : ℕ) (blocks : List BlockId) (w w' : Worklist) : Type 0 where
  pub same_in : w'.block_in ≡ w.block_in
  pub same_out : w'.block_out ≡ w.block_out
  pub flagged : Flagged n w'.on_work w'.work
  pub kept : (b : BlockId) → Memᴰ b w.work → Memᴰ b w'.work
  pub queued : (b : BlockId) → Memᴰ b blocks → Memᴰ b w'.work
  pub longer : length w'.work ≤ length w.work + length blocks

Requeued-one :
    (n : ℕ) (w : Worklist) (q : BlockId)
    → q < n
    → Flagged n w.on_work w.work
    → Requeued n (q ∷ []) w (requeue w q)
Requeued-one n w q h f = elim (Bool-cases (get_or w.on_work q false)) [
  | inl flag ↦ rw flag (record {
    same_in = refl;
    same_out = refl;
    flagged = f;
    kept = λ b m. m;
    queued = λ b m.
        ⊎_elim (λ e. subst (λ c. Memᴰ c w.work) (sym e) (f.listed q flag))
          (λ m'. absurd (Memᴰ.not-nil m')) (Memᴰ.cases_cons m);
    longer = omega arith;
  })
  | inr no_flag ↦ rw no_flag (record {
    same_in = refl;
    same_out = refl;
    flagged = record {
      size = length-set w.on_work q true ∙ f.size;
      listed = λ b k.
          let e = get_or-set w.on_work q b true false (omega (arith, f.size)) in
          elim (ℕ_discrete q b) [
            | yes same ↦ Memᴰ.head (sym same)
            | no other ↦
                let k' : get_or w.on_work b false ≡ true = ground arith in Memᴰ.tail (f.listed b k')
          ];
      inside = λ b m. ⊎_elim (λ e. omega (arith, e)) (λ m'. f.inside b m') (Memᴰ.cases_cons m);
    };
    kept = λ b m. Memᴰ.tail m;
    queued = λ b m. ⊎_elim (λ e. Memᴰ.head e) (λ m'. absurd (Memᴰ.not-nil m')) (Memᴰ.cases_cons m);
    longer = omega arith;
  })
]

pub Requeued-all :
    (n : ℕ) (w : Worklist) (blocks : List BlockId)
    → ((b : BlockId) → Memᴰ b blocks → b < n)
    → Flagged n w.on_work w.work
    → Requeued n blocks w (for_each requeue w blocks)
unfolding for_each
Requeued-all n w [] h f = record {
  same_in = refl;
  same_out = refl;
  flagged = f;
  kept = λ b m. m;
  queued = λ b m. absurd (Memᴰ.not-nil m);
  longer = omega arith;
}
Requeued-all n w (q ∷ blocks) h f =
    let one = Requeued-one n w q (h q (Memᴰ.head refl)) f in
    let rest = Requeued-all n (requeue w q) blocks (λ b m. h b (Memᴰ.tail m)) one.flagged in
    record {
      same_in = rest.same_in ∙ one.same_in;
      same_out = rest.same_out ∙ one.same_out;
      flagged = rest.flagged;
      kept = λ b m. rest.kept b (one.kept b m);
      queued = λ b m.
          ⊎_elim (λ e. rest.kept b (one.queued b (Memᴰ.head e))) (λ m'. rest.queued b m')
            (Memᴰ.cases_cons m);
      longer = omega (arith, one.longer, rest.longer);
    }

-- The stack that the loop starts with.
pub stacked : (n b : ℕ) → Memᴰ b (for_range n 0 (λ b work. b ∷ work) []) ↔ (b < n)
stacked n b =
    for_range_rule (λ i work. Memᴰ b work ↔ (b < i)) (λ b work. b ∷ work) n
      (λ i work h ih. (
        λ m. ⊎_elim (λ e. omega arith) (λ m'. let q = ih.0 m' in omega arith) (Memᴰ.cases_cons m),
        λ lt. elim (dec_lt b i) [
          | yes before ↦ Memᴰ.tail (ih.1 before)
          | no now ↦ Memᴰ.head (omega arith)
        ],
      ))
      n 0 [] (omega arith) (λ m. absurd (Memᴰ.not-nil m), λ h. absurd (omega arith))

pub Flagged-start : (n : ℕ) → Flagged n (replicate n true) (for_range n 0 (λ b work. b ∷ work) [])
Flagged-start n = record {
  size = length-replicate n true;
  listed = λ b h. elim (dec_lt b n) [
    | yes lt ↦ (stacked n b).1 lt
    | no beyond ↦
        let q = get_or-beyond (replicate n true) b false (omega (arith, length-replicate n true)) in
        absurd (cc)
  ];
  inside = λ b m. (stacked n b).0 m;
}
