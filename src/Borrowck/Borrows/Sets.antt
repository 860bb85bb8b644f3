-- ===== src/Borrowck/Borrows/Sets.antt =====
-- Which loans a union and a pruning leave.
use pocket_rust.Prelude.{
  ◌≡◌, ◌↔◌, ◌⊎◌, inl, inr, refl, sym, ℕ, suc, ◌<◌, ◌==◌, Bool, true, not, List, [], ◌∷◌, length,
  get_or, drop, push, for_each, if◌then◌else◌, Bool-cases, ==_iff, any-Memᴰ, retain-Memᴰ, push-Memᴰ,
}
use mathlib.Core.Logic.{⊎_elim}
use mathlib.Core.Path.{subst}
use mathlib.Core.List.{Memᴰ}
use mathlib.Core.List.Memᴰ
use pocket_rust.Borrowck.Graph.{RegionId}
use pocket_rust.Borrowck.Cfg.{BlockId, Cfg}
use pocket_rust.Borrowck.Liveness.{LivenessAnalysis, block_at}
use pocket_rust.Borrowck.Liveness.Flow.{Live, in_of}
use pocket_rust.Borrowck.Liveness.Fixpoint.{Finds}
use pocket_rust.Borrowck.Borrows.{
  ActiveBorrow, BorrowSet, has_id, add_borrow, union_with, prune, contains,
}
use pocket_rust.Borrowck.Borrows.LiveAfter.{compute_live_after_per_stmt}
use pocket_rust.Borrowck.Borrows.LiveAfter.Uses.{contains-Memᴰ}
use pocket_rust.Borrowck.Borrows.LiveAfter.Exact.{compute_live_after_per_stmt-Live}

-- A loan of the list has the id.
abbrev pub Known : RegionId → List ActiveBorrow → Type 0
Known id bs = (b : ActiveBorrow) × Memᴰ b bs × (b.id ≡ id)

has_id-Known : (id : RegionId) (bs : List ActiveBorrow) → (has_id id bs ≡ true) ↔ Known id bs
unfolding has_id
has_id-Known id bs =
    let found = any-Memᴰ (λ x. x.id == id) bs in
    (
      λ h. let (b, m, t) = found.0 h in (b, m, (==_iff b.id id).0 t),
      λ (b, m, e). found.1 (b, m, (==_iff b.id id).1 e),
    )

-- `u` has the loans of `s`, further ones of `bs` whose ids `s` does not have, and the ids of both.
pub record Union (s bs u : List ActiveBorrow) : Type 0 where
  pub keeps : (b : ActiveBorrow) → Memᴰ b s → Memᴰ b u
  pub no_other : (b : ActiveBorrow) → Memᴰ b u → Memᴰ b s ⊎ (Memᴰ b bs × (Known b.id s → ⊥))
  pub ids : (id : RegionId) → Known id u ↔ (Known id s ⊎ Known id bs)

Union-nothing : (s : List ActiveBorrow) → Union s [] s
Union-nothing s = record {
  keeps = λ b m. m;
  no_other = λ b m. inl m;
  ids = λ id. (λ k. inl k, ⊎_elim (λ k. k) (λ (b, m, e). absurd (Memᴰ.not-nil m)));
}

-- One loan more, and then the rest.
Union-cons :
    (b : ActiveBorrow) (s bs t u : List ActiveBorrow)
    → ((c : ActiveBorrow) → Memᴰ c t ↔ (Memᴰ c s ⊎ ((c ≡ b) × (Known b.id s → ⊥))))
    → Known b.id t
    → Union t bs u
    → Union s (b ∷ bs) u
Union-cons b s bs t u one known rest = record {
  keeps = λ c m. rest.keeps c ((one c).1 (inl m));
  no_other = λ c m.
      ⊎_elim
        (λ k.
          ⊎_elim (λ old. inl old)
            (λ (e, n). inr (Memᴰ.head e, λ q. n (subst (λ x. Known x.id s) e q))) ((one c).0 k))
        (λ (k, n). inr (Memᴰ.tail k, λ (d, p, e). n (d, (one d).1 (inl p), e))) (rest.no_other c m);
  ids = λ id. (
    λ k.
        ⊎_elim
          (λ (c, m, e).
            ⊎_elim (λ old. inl (c, old, e)) (λ (f, n). inr (c, Memᴰ.head f, e)) ((one c).0 m))
          (λ (c, m, e). inr (c, Memᴰ.tail m, e)) ((rest.ids id).0 k),
    ⊎_elim (λ (c, m, e). (rest.ids id).1 (inl (c, (one c).1 (inl m), e)))
        (λ (c, m, e).
          ⊎_elim
            (λ f. (rest.ids id).1 (inl (subst (λ i. Known i t) (subst (λ x. x.id ≡ id) f e) known)))
            (λ k. (rest.ids id).1 (inr (c, k, e))) (Memᴰ.cases_cons m)),
  );
}

abbrev pushed : Bool → BorrowSet → ActiveBorrow → BorrowSet
pushed found s b = if not found then record { borrows = push s.borrows b } else s

Union-add :
    (s : BorrowSet) (b c : ActiveBorrow)
    → Memᴰ c (add_borrow s b).borrows ↔ (Memᴰ c s.borrows ⊎ ((c ≡ b) × (Known b.id s.borrows → ⊥)))
unfolding add_borrow
Union-add s b c =
    let known = has_id-Known b.id s.borrows in
    let Goal : BorrowSet → Type 0 =
      λ u. Memᴰ c u.borrows ↔ (Memᴰ c s.borrows ⊎ ((c ≡ b) × (Known b.id s.borrows → ⊥))) in
    elim (Bool-cases (has_id b.id s.borrows)) [
      | inl e ↦
          subst (λ x. Goal (pushed x s b)) (sym e)
            (λ m. inl m, ⊎_elim (λ m. m) (λ (f, n). absurd (n (known.0 e))))
      | inr e ↦
          let added = push-Memᴰ s.borrows b c in
          subst (λ x. Goal (pushed x s b)) (sym e)
            (
              λ m.
                  ⊎_elim (λ k. inl k) (λ f. inr (f, λ k. let t = known.1 k in absurd (cc)))
                    (added.0 m),
              ⊎_elim (λ m. added.1 (inl m)) (λ (f, n). added.1 (inr f)),
            )
    ]

Known-add : (s : BorrowSet) (b : ActiveBorrow) → Known b.id (add_borrow s b).borrows
unfolding add_borrow
Known-add s b =
    let known = has_id-Known b.id s.borrows in
    elim (Bool-cases (has_id b.id s.borrows)) [
      | inl e ↦ subst (λ x. Known b.id (pushed x s b).borrows) (sym e) (known.0 e)
      | inr e ↦
          subst (λ x. Known b.id (pushed x s b).borrows) (sym e)
            (b, (push-Memᴰ s.borrows b b).1 (inr refl), refl)
    ]

add_all-Union :
    (bs : List ActiveBorrow) (s : BorrowSet) → Union s.borrows bs (for_each add_borrow s bs).borrows
unfolding for_each
add_all-Union [] s = Union-nothing s.borrows
add_all-Union (b ∷ bs) s =
    Union-cons b s.borrows bs (add_borrow s b).borrows
      (for_each add_borrow (add_borrow s b) bs).borrows (Union-add s b) (Known-add s b)
      (add_all-Union bs (add_borrow s b))

-- The union of two sets keeps every loan of the first, has a loan of the second only where the first has
-- none with the same id, and has the ids of both.
pub union_with-Union :
    (self other : BorrowSet) → Union self.borrows other.borrows (union_with self other).borrows
unfolding union_with
union_with-Union self other = add_all-Union other.borrows self

-- After a statement exactly the loans stay whose destination is live behind the statement, with the
-- result of the liveness analysis.
pub prune-Live :
    (cfg : Cfg) (liveness : LivenessAnalysis) (b : BlockId) (i : ℕ) (state : BorrowSet)
    (loan : ActiveBorrow)
    → Finds cfg liveness
    → b < length cfg.blocks
    → i < length (block_at cfg b).stmts
    → Memᴰ loan
        (prune state (
          get_or
            (compute_live_after_per_stmt (block_at cfg b) (in_of liveness.block_out b))
            i
            [])).borrows
      ↔ (Memᴰ loan state.borrows
          × Live cfg loan.dest (drop (suc i) (block_at cfg b).stmts) (block_at cfg b).terminator)
unfolding prune
prune-Live cfg liveness b i state loan found h g =
    let after =
      get_or (compute_live_after_per_stmt (block_at cfg b) (in_of liveness.block_out b)) i [] in
    let kept = retain-Memᴰ (λ x. contains after x.dest) state.borrows loan in
    let has = contains-Memᴰ after loan.dest in
    let live = compute_live_after_per_stmt-Live cfg liveness b i loan.dest found h g in
    (λ m. let (p, t) = kept.0 m in (p, live.0 (has.0 t)), λ (p, l). kept.1 (p, has.1 (live.1 l)))
