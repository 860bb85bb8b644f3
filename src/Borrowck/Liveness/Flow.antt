-- ===== src/Borrowck/Liveness/Flow.antt =====
-- When a local is live, by the paths through the graph, and what one round computes at a block.
use pocket_rust.Prelude.{◌≡◌, ◌↔◌, ◌⊎◌, inl, inr, refl, sym, List, [], ◌∷◌, for_each, get_or}
use mathlib.Core.List.{Memᴰ}
use mathlib.Core.List.Memᴰ
use mathlib.Core.Logic.{⊎_elim}
use mathlib.Core.Path.{subst}
use pocket_rust.Borrowck.Cfg.{BlockId, LocalId, CfgStmt, Terminator, Cfg}
use pocket_rust.Borrowck.Liveness.{
  LiveSet, empty, union, transfer_stmts, transfer_block, transfer_terminator, successors, block_at,
  live_out,
}
use pocket_rust.Borrowck.Liveness.Sets.{Has, union-Has, union-IsSorted, empty-Has}
use pocket_rust.Borrowck.Liveness.Sets.Sorted.{IsSorted}
use pocket_rust.Borrowck.Liveness.Uses.{
  StmtReads, StmtKills, TerminatorReads, Passes-stmt, Marks-terminator,
}

-- From these statements and this terminator on, some path reads the local before a statement overwrites it.
pub data Live (cfg : Cfg) (l : LocalId) : List CfgStmt → Terminator → Type 0 where
  reads :
      {stmt : CfgStmt} {stmts : List CfgStmt} {term : Terminator}
      → StmtReads stmt.kind l
      → Live cfg l (stmt ∷ stmts) term
  spared :
      {stmt : CfgStmt} {stmts : List CfgStmt} {term : Terminator}
      → (StmtKills stmt.kind l → ⊥)
      → Live cfg l stmts term
      → Live cfg l (stmt ∷ stmts) term
  ends : {term : Terminator} → TerminatorReads term l → Live cfg l [] term
  goes_on :
      {term : Terminator} (s : BlockId)
      → Memᴰ s (successors term)
      → Live cfg l (block_at cfg s).stmts (block_at cfg s).terminator
      → Live cfg l [] term

-- The local is live at the start of the block.
abbrev pub LiveIn : Cfg → LocalId → BlockId → Type 0
LiveIn cfg l b = Live cfg l (block_at cfg b).stmts (block_at cfg b).terminator

-- The local is live behind the terminator of the block.
abbrev pub LiveOut : Cfg → LocalId → BlockId → Type 0
LiveOut cfg l b = (s : BlockId) × Memᴰ s (successors (block_at cfg b).terminator) × LiveIn cfg l s

-- The sets of the blocks, by their ids.
abbrev pub in_of : List LiveSet → BlockId → LiveSet
in_of block_in b = get_or block_in b empty

abbrev pub AllSorted : List LiveSet → Type 0
AllSorted block_in = (b : BlockId) → IsSorted (in_of block_in b).locals

module _ (block_in : List LiveSet) (sorted : AllSorted block_in) where
  joined-Has :
      (acc : LiveSet) (succs : List BlockId) (l : LocalId)
      → Has (for_each (λ acc s. union acc (get_or block_in s empty)) acc succs) l
        ↔ (Has acc l ⊎ ((s : BlockId) × Memᴰ s succs × Has (in_of block_in s) l))
  unfolding for_each
  joined-Has acc [] l = (λ h. inl h, ⊎_elim (λ h. h) (λ (s, m, h). absurd (Memᴰ.not-nil m)))
  joined-Has acc (s ∷ succs) l =
      let rest = joined-Has (union acc (in_of block_in s)) succs l in
      let one = union-Has acc (in_of block_in s) l (sorted s) in
      (
        λ h.
            ⊎_elim (λ k. ⊎_elim (λ p. inl p) (λ p. inr (s, Memᴰ.head refl, p)) (one.0 k))
              (λ (t, m, p). inr (t, Memᴰ.tail m, p)) (rest.0 h),
        ⊎_elim (λ p. rest.1 (inl (one.1 (inl p))))
            (λ (t, m, p).
              ⊎_elim (λ e. rest.1 (inl (one.1 (inr (subst (λ u. Has (in_of block_in u) l) e p)))))
                (λ m'. rest.1 (inr (t, m', p))) (Memᴰ.cases_cons m)),
      )

  joined-IsSorted :
      (acc : LiveSet) (succs : List BlockId)
      → IsSorted acc.locals
      → IsSorted (for_each (λ acc s. union acc (get_or block_in s empty)) acc succs).locals
  unfolding for_each
  joined-IsSorted acc [] h = h
  joined-IsSorted acc (s ∷ succs) h =
      joined-IsSorted (union acc (in_of block_in s)) succs (union-IsSorted acc (in_of block_in s) h)

  pub live_out-Has :
      (cfg : Cfg) (b : BlockId) (l : LocalId)
      → Has (live_out cfg block_in b) l ↔ (
          (s : BlockId) × Memᴰ s (successors (block_at cfg b).terminator)
          × Has (in_of block_in s) l)
  live_out-Has cfg b l =
      let j = joined-Has empty (successors (block_at cfg b).terminator) l in
      (λ h. ⊎_elim (λ e. absurd (empty-Has l e)) (λ p. p) (j.0 h), λ p. j.1 (inr p))

  pub live_out-IsSorted : (cfg : Cfg) (b : BlockId) → IsSorted (live_out cfg block_in b).locals
  live_out-IsSorted cfg b = joined-IsSorted empty (successors (block_at cfg b).terminator) tt

-- The statements of a block, over any set at its end.
pub stmts-IsSorted :
    (stmts : List CfgStmt) (out : LiveSet)
    → IsSorted out.locals
    → IsSorted (transfer_stmts stmts out).locals
unfolding transfer_stmts
stmts-IsSorted [] out h = h
stmts-IsSorted (stmt ∷ stmts) out h =
    (Passes-stmt stmt (transfer_stmts stmts out) (stmts-IsSorted stmts out h)).order

pub stmts-grow :
    (stmts : List CfgStmt) (out out' : LiveSet)
    → IsSorted out.locals
    → IsSorted out'.locals
    → (l : LocalId) → (Has out l → Has out' l)
    → Has (transfer_stmts stmts out) l
    → Has (transfer_stmts stmts out') l
unfolding transfer_stmts
stmts-grow [] out out' h h' l f p = f p
stmts-grow (stmt ∷ stmts) out out' h h' l f p =
    ((Passes-stmt stmt (transfer_stmts stmts out') (stmts-IsSorted stmts out' h')).has l).1 (
      ⊎_elim (λ r. inl r) (λ q. inr (q.0, stmts-grow stmts out out' h h' l f q.1))
        (((Passes-stmt stmt (transfer_stmts stmts out) (stmts-IsSorted stmts out h)).has l).0 p))

stmts-Live :
    (cfg : Cfg) (l : LocalId) (stmts : List CfgStmt) (term : Terminator) (out : LiveSet)
    → IsSorted out.locals
    → (Has out l → Live cfg l [] term)
    → Has (transfer_stmts stmts out) l
    → Live cfg l stmts term
unfolding transfer_stmts
stmts-Live cfg l [] term out h f p = f p
stmts-Live cfg l (stmt ∷ stmts) term out h f p =
    ⊎_elim reads (λ q. spared q.0 (stmts-Live cfg l stmts term out h f q.1))
      (((Passes-stmt stmt (transfer_stmts stmts out) (stmts-IsSorted stmts out h)).has l).0 p)

-- A round puts live locals only into the set of a block, if the sets of the others have no other.
pub transfer_block-LiveIn :
    (cfg : Cfg) (block_in : List LiveSet) (b : BlockId) (l : LocalId)
    → AllSorted block_in
    → ((s : BlockId) → Has (in_of block_in s) l → LiveIn cfg l s)
    → Has (transfer_block (block_at cfg b) (live_out cfg block_in b)) l
    → LiveIn cfg l b
unfolding transfer_block
transfer_block-LiveIn cfg block_in b l sorted f p =
    let block = block_at cfg b in
    let out = live_out cfg block_in b in
    let m = Marks-terminator block.terminator out in
    stmts-Live cfg l block.stmts block.terminator (transfer_terminator block.terminator out)
      (m.keeps_order (live_out-IsSorted block_in sorted cfg b))
      (λ h.
        ⊎_elim ends
          (λ q. let (s, i, r) = (live_out-Has block_in sorted cfg b l).0 q in goes_on s i (f s r))
          ((m.has l).0 h))
      p

pub transfer_block-IsSorted :
    (cfg : Cfg) (block_in : List LiveSet) (b : BlockId)
    → AllSorted block_in
    → IsSorted (transfer_block (block_at cfg b) (live_out cfg block_in b)).locals
unfolding transfer_block
transfer_block-IsSorted cfg block_in b sorted =
    let block = block_at cfg b in
    stmts-IsSorted block.stmts (transfer_terminator block.terminator (live_out cfg block_in b)) (
      (Marks-terminator block.terminator (live_out cfg block_in b)).keeps_order
        (live_out-IsSorted block_in sorted cfg b))

-- Larger sets at the successors give a larger set at the block.
pub transfer_block-grows :
    (cfg : Cfg) (block_in block_in' : List LiveSet) (b : BlockId) (l : LocalId)
    → AllSorted block_in
    → AllSorted block_in'
    → ((s : BlockId) → Has (in_of block_in s) l → Has (in_of block_in' s) l)
    → Has (transfer_block (block_at cfg b) (live_out cfg block_in b)) l
    → Has (transfer_block (block_at cfg b) (live_out cfg block_in' b)) l
unfolding transfer_block
transfer_block-grows cfg block_in block_in' b l sorted sorted' f p =
    let block = block_at cfg b in
    let m = Marks-terminator block.terminator (live_out cfg block_in b) in
    let m' = Marks-terminator block.terminator (live_out cfg block_in' b) in
    stmts-grow block.stmts (transfer_terminator block.terminator (live_out cfg block_in b))
      (transfer_terminator block.terminator (live_out cfg block_in' b))
      (m.keeps_order (live_out-IsSorted block_in sorted cfg b))
      (m'.keeps_order (live_out-IsSorted block_in' sorted' cfg b)) l
      (λ h. (m'.has l).1 (
        ⊎_elim (λ r. inl r)
          (λ q.
            let (s, i, r) = (live_out-Has block_in sorted cfg b l).0 q in
            inr ((live_out-Has block_in' sorted' cfg b l).1 (s, i, f s r)))
          ((m.has l).0 h)))
      p

-- Sets that satisfy the equations at every block have every live local.
module _ (cfg : Cfg) (block_in : List LiveSet) (sorted : AllSorted block_in) (l : LocalId)
    (settled : (b : BlockId)
      → in_of block_in b ≡ transfer_block (block_at cfg b) (live_out cfg block_in b)) where
  Live-Has :
      {stmts : List CfgStmt} {term : Terminator} (out : LiveSet)
      → IsSorted out.locals
      → ((s : BlockId) → Memᴰ s (successors term) → Has (in_of block_in s) l → Has out l)
      → Live cfg l stmts term
      → Has (transfer_stmts stmts (transfer_terminator term out)) l
  unfolding transfer_stmts transfer_block
  Live-Has {term = term} out h f (reads {stmt = stmt} {stmts = stmts} r) =
      let m = Marks-terminator term out in
      ((Passes-stmt stmt (transfer_stmts stmts (transfer_terminator term out))
            (stmts-IsSorted stmts (transfer_terminator term out) (m.keeps_order h))).has
          l).1
        (inl r)
  Live-Has {term = term} out h f (spared {stmt = stmt} {stmts = stmts} k live) =
      let m = Marks-terminator term out in
      ((Passes-stmt stmt (transfer_stmts stmts (transfer_terminator term out))
            (stmts-IsSorted stmts (transfer_terminator term out) (m.keeps_order h))).has
          l).1
        (inr (k, Live-Has out h f live))
  Live-Has {term = term} out h f (ends r) = ((Marks-terminator term out).has l).1 (inl r)
  Live-Has {term = term} out h f (goes_on s m live) =
      let sets = live_out-Has block_in sorted cfg s l in
      let there =
        Live-Has (live_out cfg block_in s) (live_out-IsSorted block_in sorted cfg s)
          (λ t i p. sets.1 (t, i, p)) live in
      ((Marks-terminator term out).has l).1
        (inr (f s m (subst (λ x. Has x l) (sym (settled s)) there)))

  pub LiveIn-Has : (b : BlockId) → LiveIn cfg l b → Has (in_of block_in b) l
  unfolding transfer_block
  LiveIn-Has b live =
      subst (λ x. Has x l) (sym (settled b))
        (Live-Has (live_out cfg block_in b) (live_out-IsSorted block_in sorted cfg b)
          (λ t i p. (live_out-Has block_in sorted cfg b l).1 (t, i, p)) live)
