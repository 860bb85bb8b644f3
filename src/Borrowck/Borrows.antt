-- ===== src/Borrowck/Borrows.antt =====
-- src/borrowck/borrows.rs: the loans that are active at each statement, and the accesses that conflict
-- with them. A local without a declaration, where the program stops, counts as one without references.
pub mod LiveAfter
pub mod Transfer
pub mod Sets
pub mod Reports
pub mod Loans
pub mod Worklist
pub mod Made
pub mod Carried
pub mod Held
pub mod Grounds
pub mod Rounds
mod Examples
use pocket_rust.Prelude.{
  ℕ, ◌+◌, zero, suc, Bool, true, false, not, ◌&&◌, ◌||◌, ◌==◌, Option, none, some, List, [], ◌∷◌,
  ◌++◌, String, ◌+++◌, if◌then◌else◌, is_empty, length, get_elem?, get_or, push, retain, any,
  for_each,
}
use pocket_rust.Span.{Span, Error}
use pocket_rust.Typeck.Types.{
  RType, int, struct, ref, raw_ptr, param, bool, tuple, enum, slice, str, char, never, assoc_proj,
  opaque, fn_ptr, dyn, RTypes, no_types, and_type,
}
use pocket_rust.Borrowck.Graph.{RegionId}
use pocket_rust.Borrowck.Cfg
use pocket_rust.Borrowck.Cfg.{
  BlockId, LocalId, Place, OperandKind, move, copy, Operand, Rvalue, use_operand, borrow, cast,
  call, struct_lit, tuple_lit, variant, builtin, discriminant, CfgStmtKind, assign, drop, CfgStmt,
  BasicBlock, LocalDecl, Cfg, overlaps, render,
}

pub record ActiveBorrow : Type 0 where
  pub id : RegionId
  pub place : Place
  pub mutable : Bool
  pub dest : LocalId
  pub span : Span

pub record BorrowSet : Type 0 where
  pub borrows : List ActiveBorrow

abbrev pub empty : BorrowSet
empty = record { borrows = [] }

unfoldable pub has_id : RegionId → List ActiveBorrow → Bool
has_id id borrows = any (λ x. x.id == id) borrows

unfoldable pub add_borrow : BorrowSet → ActiveBorrow → BorrowSet
add_borrow self b =
    if not (has_id b.id self.borrows) then record { borrows = push self.borrows b } else self

unfoldable pub union_with : BorrowSet → BorrowSet → BorrowSet
union_with self other = for_each add_borrow self other.borrows

unfoldable pub all_have_id : List ActiveBorrow → List ActiveBorrow → Bool
all_have_id [] other = true
all_have_id (b ∷ bs) other =
    let rest = all_have_id bs other in if not (has_id b.id other) then false else rest

unfoldable pub equal : BorrowSet → BorrowSet → Bool
equal self other =
    if not (length self.borrows == length other.borrows)
    then false
    else all_have_id self.borrows other.borrows

-- `contains` on a vector
unfoldable pub contains : List LocalId → LocalId → Bool
contains locals l = any (λ x. x == l) locals

unfoldable pub prune : BorrowSet → List LocalId → BorrowSet
prune self live_locals = record { borrows = retain (λ b. contains live_locals b.dest) self.borrows }

abbrev conflict_message : Bool → Bool → String → String
conflict_message true true rendered =
    "cannot borrow " +++ rendered +++ " as mutable: already borrowed as mutable"
conflict_message true false rendered =
    "cannot borrow " +++ rendered +++ " as mutable: already borrowed as immutable"
conflict_message false old rendered =
    "cannot borrow " +++ rendered +++ " as immutable: already borrowed as mutable"

-- The rounds of check_borrow.
abbrev pub against : Bool → Place → String → Span → String → List Error → ActiveBorrow → List Error
against new_mutable new_place rendered span file errors b =
    if overlaps b.place new_place
    then if new_mutable || b.mutable
      then push errors (record {
        file = file;
        message = conflict_message new_mutable b.mutable rendered;
        span = span;
      })
      else errors
    else errors

unfoldable pub check_borrow :
    Bool → Place → BorrowSet → Span → List Error → Cfg → String → List Error
check_borrow new_mutable new_place state span errors cfg file =
    let rendered = "`" +++ render new_place cfg.locals +++ "`" in
    for_each (against new_mutable new_place rendered span file) errors state.borrows

-- The loops of the other checks report the first conflict and return.
abbrev pub first_conflict : (ActiveBorrow → Bool) → BorrowSet → List Error → Error → List Error
first_conflict test state errors error =
    if any test state.borrows then push errors error else errors

unfoldable pub check_write : Place → BorrowSet → Span → List Error → Cfg → String → List Error
check_write place state span errors cfg file =
    first_conflict (λ b. overlaps b.place place) state errors
      (record {
        file = file;
        message = "cannot assign to `" +++ render place cfg.locals +++ "` while it is borrowed";
        span = span;
      })

unfoldable pub check_move : Place → BorrowSet → Span → List Error → Cfg → String → List Error
check_move place state span errors cfg file =
    first_conflict (λ b. overlaps b.place place) state errors
      (record {
        file = file;
        message = "cannot move `" +++ render place cfg.locals +++ "` while it is borrowed";
        span = span;
      })

unfoldable pub check_read_shared : Place → BorrowSet → Span → List Error → Cfg → String → List Error
check_read_shared place state span errors cfg file =
    first_conflict (λ b. b.mutable && overlaps b.place place) state errors
      (record {
        file = file;
        message = "cannot use `" +++ render place cfg.locals +++ "` because it is mutably borrowed";
        span = span;
      })

abbrev pub read_kind : OperandKind → Span → Cfg → BorrowSet → List Error → String → List Error
read_kind (move p) span cfg state errors file = check_move p state span errors cfg file
read_kind (copy p) span cfg state errors file = check_read_shared p state span errors cfg file
read_kind _ span cfg state errors file = errors

unfoldable pub apply_operand_read : Operand → Cfg → BorrowSet → List Error → String → List Error
apply_operand_read op cfg state errors file = read_kind op.kind op.span cfg state errors file

unfoldable pub read_all : List Operand → Cfg → BorrowSet → List Error → String → List Error
read_all ops cfg state errors file =
    for_each (λ errors op. apply_operand_read op cfg state errors file) errors ops

unfoldable pub read_fields :
    List (String × Operand) → Cfg → BorrowSet → List Error → String → List Error
read_fields fields cfg state errors file =
    for_each (λ errors field. apply_operand_read field.1 cfg state errors file) errors fields

unfoldable pub apply_rvalue : Rvalue → Cfg → BorrowSet → List Error → String → Span → List Error
apply_rvalue (borrow mutable place region) cfg state errors file fallback_span =
    check_borrow mutable place state fallback_span errors cfg file
apply_rvalue (use_operand op) cfg state errors file fallback_span =
    apply_operand_read op cfg state errors file
apply_rvalue (cast source target_ty) cfg state errors file fallback_span =
    apply_operand_read source cfg state errors file
apply_rvalue (call callee args id) cfg state errors file fallback_span =
    read_all args cfg state errors file
apply_rvalue (struct_lit p type_args fields) cfg state errors file fallback_span =
    read_fields fields cfg state errors file
apply_rvalue (tuple_lit ops) cfg state errors file fallback_span =
    read_all ops cfg state errors file
apply_rvalue (variant p type_args disc Cfg.unit) cfg state errors file fallback_span = errors
apply_rvalue (variant p type_args disc (Cfg.tuple ops)) cfg state errors file fallback_span =
    read_all ops cfg state errors file
apply_rvalue (variant p type_args disc (Cfg.struct fields)) cfg state errors file fallback_span =
    read_fields fields cfg state errors file
apply_rvalue (builtin name args) cfg state errors file fallback_span =
    read_all args cfg state errors file
apply_rvalue (discriminant place) cfg state errors file fallback_span =
    check_read_shared place state fallback_span errors cfg file
