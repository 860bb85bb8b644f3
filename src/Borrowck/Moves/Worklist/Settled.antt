-- ===== src/Borrowck/Moves/Worklist/Settled.antt =====
-- Whatever the order of the rounds, a block that is not waiting satisfies the equations of the analysis.
use pocket_rust.Prelude.{
  ◌≡◌, ◌⊎◌, refl, sym, ap, ◌∙◌, ◌<◌, Bool, true, false, not, ◌&&◌, ◌==◌, Option, none, some, List,
  [], ◌∷◌, String, length, get_or, get_or-set_other, set, for_each, if◌then◌else◌, any, any-Memᴰ,
  arith,
}
use mathlib.Core.Path.{subst}
use mathlib.Core.List.{Memᴰ}
use pocket_rust.Typeck.Types.{RType}
use pocket_rust.Borrowck.Cfg.{BlockId, Cfg, place_eq}
use pocket_rust.Borrowck.Cfg.Places.{place_eq_iff}
use pocket_rust.Borrowck.Liveness.{block_at, compute_predecessors}
use pocket_rust.Borrowck.Liveness.Queue.{Flagged}
use pocket_rust.Borrowck.Moves.{
  MoveStatus, moved, maybe_moved, uninit, status_eq, Entry, MoveSet, empty, all_found, equal,
}
use pocket_rust.Borrowck.Moves.Worklist.{Worklist, merge_pred, or_empty, block_start, block_end}
use pocket_rust.Borrowck.Moves.Worklist.States.{block-Keeps}

status_eq_refl : (s : MoveStatus) → status_eq s s ≡ true
unfolding status_eq
status_eq_refl moved = refl
status_eq_refl maybe_moved = refl
status_eq_refl uninit = refl

all_found-inside :
    (xs ys : List Entry) → ((e : Entry) → Memᴰ e xs → Memᴰ e ys) → all_found xs ys ≡ true
all_found-inside [] ys h = refl
all_found-inside ((p, s) ∷ xs) ys h =
    let found : any (λ (q, t). place_eq q p && status_eq t s) ys ≡ true =
      (any-Memᴰ (λ (q, t). place_eq q p && status_eq t s) ys).1 (
        (p, s),
        h (p, s) (Memᴰ.head refl),
        rw ((place_eq_iff p p).1 refl, status_eq_refl s) refl,
      ) in
    ap (λ t. if not t then false else all_found xs ys) found
    ∙ all_found-inside xs ys (λ e m. h e (Memᴰ.tail m))

pub equal_refl : (s : MoveSet) → equal s s ≡ true
unfolding equal
equal_refl s =
    let e : (length s.entries == length s.entries) ≡ true = ground arith in
    ap (λ t. if not t then false else all_found s.entries s.entries) e
    ∙ all_found-inside s.entries s.entries (λ e m. m)

-- The start of a block reads the ends of its predecessors only.
merge_pred-set :
    (outs : List MoveSet) (b p : BlockId) (v : MoveSet) (acc : Option MoveSet)
    → b < length outs
    → (b ≡ p → ⊥)
    → merge_pred (set outs b v) acc p ≡ merge_pred outs acc p
merge_pred-set outs b p v acc h other =
    let e = get_or-set_other outs b p v empty h other in
    elim acc as (λ acc. merge_pred (set outs b v) acc p ≡ merge_pred outs acc p) [
      | none ↦ ap (λ s. some s) e
      | some prev ↦ ap (λ s. merge_pred (s ∷ []) (some prev) 0) e
    ]

merged-set :
    (outs : List MoveSet) (b : BlockId) (v : MoveSet) (acc : Option MoveSet) (ps : List BlockId)
    → b < length outs
    → (Memᴰ b ps → ⊥)
    → for_each (merge_pred (set outs b v)) acc ps ≡ for_each (merge_pred outs) acc ps
unfolding for_each
merged-set outs b v acc [] h out = refl
merged-set outs b v acc (p ∷ ps) h out =
    ap (λ a. for_each (merge_pred (set outs b v)) a ps)
      (merge_pred-set outs b p v acc h (λ e. out (Memᴰ.head e)))
    ∙ merged-set outs b v (merge_pred outs acc p) ps h (λ m. out (Memᴰ.tail m))

pub block_start-set :
    (cfg : Cfg) (outs : List MoveSet) (b c : BlockId) (v : MoveSet)
    → b < length outs
    → (Memᴰ b (get_or (compute_predecessors cfg) c []) → ⊥)
    → block_start cfg (set outs b v) c ≡ block_start cfg outs c
unfolding block_start
block_start-set cfg outs b c v h out =
    ap (λ o. if c == cfg.entry then empty else or_empty o)
      (merged-set outs b v none (get_or (compute_predecessors cfg) c []) h out)

module _ (cfg : Cfg) (is_drop : RType → Bool) (file : String) where
  -- The state behind a block that begins with `s`.
  abbrev pub end_state : MoveSet → BlockId → MoveSet
  end_state s b = (block_end cfg is_drop file s [] b).state

  -- The block begins with the merge of what its predecessors end with, and the state it ends with is the
  -- one that its statements and its terminator lead to.
  pub record Settled (block_in block_out : List MoveSet) (b : BlockId) : Type 0 where
    pub at_start : get_or block_in b empty ≡ block_start cfg block_out b
    pub at_end : equal (get_or block_out b empty) (end_state (get_or block_in b empty) b) ≡ true

  pub any_sites :
      (s : MoveSet) (w : Worklist) (b : BlockId)
      → (block_end cfg is_drop file s w.move_sites_raw b).state ≡ end_state s b
  unfolding block_end
  any_sites s w b = block-Keeps cfg is_drop file (block_at cfg b) _ _ refl

  -- A write at another block.
  pub Settled-in :
      (ins outs : List MoveSet) (b c : BlockId) (v : MoveSet)
      → b < length ins
      → (b ≡ c → ⊥)
      → Settled ins outs c
      → Settled (set ins b v) outs c
  Settled-in ins outs b c v h other s =
      let e = get_or-set_other ins b c v empty h other in
      record {
        at_start = e ∙ s.at_start;
        at_end = subst (λ x. equal (get_or outs c empty) (end_state x c) ≡ true) (sym e) s.at_end;
      }

  pub Settled-out :
      (ins outs : List MoveSet) (b c : BlockId) (v : MoveSet)
      → b < length outs
      → (b ≡ c → ⊥)
      → (Memᴰ b (get_or (compute_predecessors cfg) c []) → ⊥)
      → Settled ins outs c
      → Settled ins (set outs b v) c
  Settled-out ins outs b c v h other out s = record {
    at_start = s.at_start ∙ sym (block_start-set cfg outs b c v h out);
    at_end =
        subst (λ x. equal x (end_state (get_or ins c empty) c) ≡ true)
          (sym (get_or-set_other outs b c v empty h other)) s.at_end;
  }

  pub record Good (w : Worklist) : Type 0 where
    pub in_size : length w.block_in ≡ length cfg.blocks
    pub out_size : length w.block_out ≡ length cfg.blocks
    pub flagged : Flagged (length cfg.blocks) w.on_work w.work
    pub pending :
        (b : BlockId) → b < length cfg.blocks → Memᴰ b w.work ⊎ Settled w.block_in w.block_out b
