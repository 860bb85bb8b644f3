-- ===== src/Borrowck/Liveness.antt =====
-- src/borrowck/liveness.rs: which locals may still be read, at the start and the end of each block.
pub mod Sets
pub mod Uses
pub mod Flow
pub mod Preds
pub mod Queue
pub mod Growth
pub mod Rounds
pub mod Bound
pub mod Ends
pub mod Fixpoint
mod Examples
use pocket_rust.Prelude.{
  ℕ, zero, suc, ◌+◌, ◌*◌, Bool, true, false, not, Option, none, some, Result, ok, err, List, [],
  ◌∷◌, ◌++◌, String, ◌&&◌, ◌==◌, ◌>>=◌, for_range, is_empty, if◌then◌else◌, length, get_or, set,
  replicate, push, for_each, insert_at, remove_at,
}
use Prim.Native.Nat.{compare, Ordering}
use pocket_rust.Borrowck.Cfg.{
  BlockId, LocalId, Place, OperandKind, move, copy, const_int, const_bool, const_unit, const_str,
  Operand, VariantFields, unit, tuple, struct, Rvalue, use_operand, borrow, cast, call, struct_lit,
  tuple_lit, variant, builtin, discriminant, CfgStmtKind, assign, drop, storage_live, storage_dead,
  uninit, CfgStmt, Terminator, goto, if_branch, switch_int, return, unreachable, BasicBlock, Cfg,
}

pub record LiveSet : Type 0 where
  pub locals : List LocalId

abbrev pub empty : LiveSet
empty = record { locals = [] }

-- `binary_search` on a sorted list: the position of the element, or where to insert it. The
-- standard library promises this for sorted lists only.
abbrev pub later : Result ℕ ℕ → Result ℕ ℕ
later (ok i) = ok (suc i)
later (err i) = err (suc i)

unfoldable pub binary_search : List LocalId → LocalId → Result ℕ ℕ
binary_search [] l = err 0
binary_search (x ∷ xs) l =
    let rest = binary_search xs l in
    elim (compare l x) [ Ordering.lt ↦ err 0 | Ordering.eq ↦ ok 0 | Ordering.gt ↦ later rest ]

unfoldable pub contains : LiveSet → LocalId → Bool
contains self l = elim (binary_search self.locals l) [ ok i ↦ true | err i ↦ false ]

unfoldable pub insert : LiveSet → LocalId → Bool × LiveSet
insert self l = elim (binary_search self.locals l) [
  | ok i ↦ (false, self)
  | err i ↦ (true, record { locals = insert_at self.locals i l })
]

unfoldable pub remove : LiveSet → LocalId → Bool × LiveSet
remove self l = elim (binary_search self.locals l) [
  | ok i ↦ (true, record { locals = remove_at self.locals i })
  | err i ↦ (false, self)
]

abbrev pub list_eq : List LocalId → List LocalId → Bool
list_eq [] [] = true
list_eq (x ∷ xs) (y ∷ ys) = (x == y) && list_eq xs ys
list_eq _ _ = false

unfoldable pub equal : LiveSet → LiveSet → Bool
equal self other = list_eq self.locals other.locals

unfoldable pub union : LiveSet → LiveSet → LiveSet
union a b = for_each (λ out l. (insert out l).1) a b.locals

abbrev pub mark_kind_uses : OperandKind → LiveSet → LiveSet
mark_kind_uses (move p) state = (insert state p.root).1
mark_kind_uses (copy p) state = (insert state p.root).1
mark_kind_uses _ state = state

unfoldable pub mark_operand_uses : Operand → LiveSet → LiveSet
mark_operand_uses op state = mark_kind_uses op.kind state

unfoldable pub mark_all : List Operand → LiveSet → LiveSet
mark_all ops state = for_each (λ state op. mark_operand_uses op state) state ops

unfoldable pub mark_fields : List (String × Operand) → LiveSet → LiveSet
mark_fields fields state = for_each (λ state field. mark_operand_uses field.1 state) state fields

unfoldable pub mark_rvalue_uses : Rvalue → LiveSet → LiveSet
mark_rvalue_uses (use_operand op) state = mark_operand_uses op state
mark_rvalue_uses (borrow mutable place region) state = (insert state place.root).1
mark_rvalue_uses (cast source target_ty) state = mark_operand_uses source state
mark_rvalue_uses (call callee args id) state = mark_all args state
mark_rvalue_uses (struct_lit p type_args fields) state = mark_fields fields state
mark_rvalue_uses (tuple_lit ops) state = mark_all ops state
mark_rvalue_uses (variant p type_args disc unit) state = state
mark_rvalue_uses (variant p type_args disc (tuple ops)) state = mark_all ops state
mark_rvalue_uses (variant p type_args disc (struct fields)) state = mark_fields fields state
mark_rvalue_uses (builtin name args) state = mark_all args state
mark_rvalue_uses (discriminant place) state = (insert state place.root).1

abbrev pub transfer_kind : CfgStmtKind → LiveSet → LiveSet
transfer_kind (assign place rvalue) state =
    let state = if is_empty place.projections then (remove state place.root).1 else state in
    mark_rvalue_uses rvalue state
transfer_kind (drop place) state = (insert state place.root).1
transfer_kind _ state = state

unfoldable pub transfer_stmt : CfgStmt → LiveSet → LiveSet
transfer_stmt stmt state = transfer_kind stmt.kind state

unfoldable pub transfer_terminator : Terminator → LiveSet → LiveSet
transfer_terminator (if_branch cond then_block else_block) state = mark_operand_uses cond state
transfer_terminator (switch_int operand targets otherwise) state = mark_operand_uses operand state
transfer_terminator _ state = state

-- The statements from the last to the first.
unfoldable pub transfer_stmts : List CfgStmt → LiveSet → LiveSet
transfer_stmts [] state = state
transfer_stmts (stmt ∷ stmts) state = transfer_stmt stmt (transfer_stmts stmts state)

unfoldable pub transfer_block : BasicBlock → LiveSet → LiveSet
transfer_block block state = transfer_stmts block.stmts (transfer_terminator block.terminator state)

unfoldable pub successors : Terminator → List BlockId
successors (goto b) = b ∷ []
successors (if_branch cond then_block else_block) = then_block ∷ else_block ∷ []
successors (switch_int operand targets otherwise) =
    push (for_each (λ out target. push out target.1) [] targets) otherwise
successors return = []
successors unreachable = []

-- `cfg.blocks[b].terminator`; a block id out of range, where the program stops, has no successors.
abbrev pub block_at : Cfg → BlockId → BasicBlock
block_at cfg b = get_or cfg.blocks b (record { stmts = []; terminator = unreachable })

unfoldable pub compute_predecessors : Cfg → List (List BlockId)
compute_predecessors cfg =
    let n = length cfg.blocks in
    for_range n 0
      (λ b preds.
        for_each (λ preds s. set preds s (push (get_or preds s []) b)) preds
          (successors (block_at cfg b).terminator))
      (replicate n [])

pub record LivenessAnalysis : Type 0 where
  pub block_in : List LiveSet
  pub block_out : List LiveSet

-- The variables of the loop. `work` is a stack: its first element is the last of the source's vector.
pub record Worklist : Type 0 where
  pub block_in : List LiveSet
  pub block_out : List LiveSet
  pub on_work : List Bool
  pub work : List BlockId

abbrev pub start : ℕ → Worklist
start n = record {
  block_in = replicate n empty;
  block_out = replicate n empty;
  on_work = replicate n true;
  work = for_range n 0 (λ b work. b ∷ work) [];
}

abbrev pub requeue : Worklist → BlockId → Worklist
requeue w q =
    if not (get_or w.on_work q false)
    then record {
      block_in = w.block_in;
      block_out = w.block_out;
      on_work = set w.on_work q true;
      work = q ∷ w.work;
    }
    else w

abbrev pub live_out : Cfg → List LiveSet → BlockId → LiveSet
live_out cfg block_in b =
    for_each (λ acc s. union acc (get_or block_in s empty)) empty
      (successors (block_at cfg b).terminator)

-- One round, with `b` popped.
unfoldable pub visit : Cfg → List (List BlockId) → BlockId → List BlockId → Worklist → Worklist
visit cfg preds b work w =
    let on_work = set w.on_work b false in
    let new_out = live_out cfg w.block_in b in
    let block_out = set w.block_out b new_out in
    let new_in = transfer_block (block_at cfg b) new_out in
    if not (equal new_in (get_or w.block_in b empty))
    then for_each requeue
        (record {
          block_in = set w.block_in b new_in;
          block_out = block_out;
          on_work = on_work;
          work = work;
        })
        (get_or preds b [])
    else record { block_in = w.block_in; block_out = block_out; on_work = on_work; work = work }

-- `while let Some(b) = work.pop()` on fuel; `none` when it runs out.
unfoldable pub work_loop : ℕ → Cfg → List (List BlockId) → Worklist → Option Worklist
work_loop zero cfg preds w = none
work_loop (suc fuel) cfg preds w = elim w.work [
  | [] ↦ some w
  | b ∷ work ↦ work_loop fuel cfg preds (visit cfg preds b work w)
]

unfoldable pub analyze : ℕ → Cfg → Option LivenessAnalysis
analyze fuel cfg =
    work_loop fuel cfg (compute_predecessors cfg) (start (length cfg.blocks))
    >>= (λ w. some (record { block_in = w.block_in; block_out = w.block_out }))
