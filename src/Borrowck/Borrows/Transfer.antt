-- ===== src/Borrowck/Borrows/Transfer.antt =====
-- src/borrowck/borrows.rs: what statements and blocks do to the active loans.
use pocket_rust.Prelude.{
  ℕ, ◌+◌, Bool, true, false, not, ◌&&◌, ◌||◌, ◌==◌, Option, none, some, List, [], ◌∷◌, ◌++◌, String,
  if◌then◌else◌, is_empty, get_elem?, get_or, push, for_each,
}
use pocket_rust.Span.{Span, Error}
use pocket_rust.Typeck.Types.{
  RType, int, struct, ref, raw_ptr, param, bool, tuple, enum, slice, str, char, never, assoc_proj,
  opaque, fn_ptr, dyn, RTypes, no_types, and_type,
}
use pocket_rust.Borrowck.Cfg
use pocket_rust.Borrowck.Cfg.{
  BlockId, LocalId, Place, OperandKind, move, copy, Operand, Rvalue, use_operand, borrow, cast,
  call, struct_lit, tuple_lit, variant, builtin, discriminant, CfgStmtKind, assign, drop, CfgStmt,
  BasicBlock, LocalDecl, Cfg, overlaps, render,
}
use pocket_rust.Borrowck.Liveness.{LivenessAnalysis}
use pocket_rust.Borrowck.Liveness
use pocket_rust.Borrowck.Borrows.{
  ActiveBorrow, BorrowSet, contains, prune, apply_rvalue, check_write,
}
use pocket_rust.Borrowck.Borrows.LiveAfter.{compute_live_after_per_stmt}

unfoldable mutual
  pub rtype_contains_ref : RType → Bool
  rtype_contains_ref (ref inner mutable lifetime) = true
  rtype_contains_ref (raw_ptr inner mutable) = false
  rtype_contains_ref (int k) = false
  rtype_contains_ref bool = false
  rtype_contains_ref (param name) = false
  rtype_contains_ref (tuple elems) = any_contains_ref elems
  rtype_contains_ref (struct path type_args lifetime_args) =
      not (is_empty lifetime_args) || any_contains_ref type_args
  rtype_contains_ref (enum path type_args lifetime_args) =
      not (is_empty lifetime_args) || any_contains_ref type_args
  rtype_contains_ref (slice inner) = true
  rtype_contains_ref str = true
  rtype_contains_ref (assoc_proj base trait_path name) = true
  rtype_contains_ref never = false
  rtype_contains_ref char = false
  rtype_contains_ref (opaque fn_path slot) = true
  rtype_contains_ref (fn_ptr params ret) = false
  rtype_contains_ref (dyn _ lifetime) = true

  pub any_contains_ref : RTypes → Bool
  any_contains_ref no_types = false
  any_contains_ref (and_type t ts) = rtype_contains_ref t || any_contains_ref ts

abbrev pub push_root : List LocalId → LocalId → List LocalId
push_root out root = if not (contains out root) then push out root else out

abbrev pub push_kind : OperandKind → List LocalId → List LocalId
push_kind (move p) out = push_root out p.root
push_kind (copy p) out = push_root out p.root
push_kind _ out = out

abbrev pub push_op : List LocalId → Operand → List LocalId
push_op out op = push_kind op.kind out

unfoldable pub collect_rvalue_source_locals : Rvalue → List LocalId → List LocalId
collect_rvalue_source_locals (use_operand op) out = push_op out op
collect_rvalue_source_locals (cast source target_ty) out = push_op out source
collect_rvalue_source_locals (call callee args id) out = for_each push_op out args
collect_rvalue_source_locals (struct_lit p type_args fields) out =
    for_each (λ out field. push_op out field.1) out fields
collect_rvalue_source_locals (tuple_lit ops) out = for_each push_op out ops
collect_rvalue_source_locals (variant p type_args disc Cfg.unit) out = out
collect_rvalue_source_locals (variant p type_args disc (Cfg.tuple ops)) out =
    for_each push_op out ops
collect_rvalue_source_locals (variant p type_args disc (Cfg.struct fields)) out =
    for_each (λ out field. push_op out field.1) out fields
collect_rvalue_source_locals (builtin name args) out = for_each push_op out args
collect_rvalue_source_locals (discriminant place) out = out
collect_rvalue_source_locals (borrow mutable place region) out = out

abbrev pub dest_contains_ref : Option LocalDecl → Bool
dest_contains_ref none = false
dest_contains_ref (some decl) = rtype_contains_ref decl.ty

-- The loans of the source locals, on the destination.
unfoldable pub carried : List LocalId → LocalId → Span → List ActiveBorrow → List ActiveBorrow
carried sources root span [] = []
carried sources root span (b ∷ bs) =
    let rest = carried sources root span bs in
    if contains sources b.dest && not (b.dest == root)
    then record { id = b.id; place = b.place; mutable = b.mutable; dest = root; span = span } ∷ rest
    else rest

unfoldable pub propagate : Rvalue → LocalId → Span → Cfg → BorrowSet → BorrowSet
propagate rvalue root span cfg state =
    if dest_contains_ref (get_elem? cfg.locals root)
    then (let sources = collect_rvalue_source_locals rvalue [] in
        if not (is_empty sources)
        then record { borrows = state.borrows ++ carried sources root span state.borrows }
        else state)
    else state

-- The loans that an assignment adds.
unfoldable pub add_loans : Rvalue → Place → Span → Cfg → BorrowSet → BorrowSet
add_loans (borrow mutable borrowed_place region) place span cfg state = record {
  borrows = push state.borrows (record {
    id = region;
    place = borrowed_place;
    mutable = mutable;
    dest = place.root;
    span = span;
  });
}
add_loans rvalue place span cfg state = propagate rvalue place.root span cfg state

abbrev pub stmt_kind :
    CfgStmtKind → Span → Cfg → BorrowSet → List Error → String → BorrowSet × List Error
stmt_kind (assign place rvalue) span cfg state errors file =
    let errors = apply_rvalue rvalue cfg state errors file span in
    let state = add_loans rvalue place span cfg state in
    (state, check_write place state span errors cfg file)
stmt_kind (drop place) span cfg state errors file =
    (state, check_write place state span errors cfg file)
stmt_kind _ span cfg state errors file = (state, errors)

unfoldable pub apply_stmt : CfgStmt → Cfg → BorrowSet → List Error → String → BorrowSet × List Error
apply_stmt stmt cfg state errors file = stmt_kind stmt.kind stmt.span cfg state errors file

-- The rounds of apply_block from statement `i` on.
unfoldable pub apply_stmts :
    ℕ
    → List CfgStmt
    → List (List LocalId)
    → Cfg
    → String
    → BorrowSet × List Error
    → BorrowSet × List Error
apply_stmts i [] live_after cfg file result = result
apply_stmts i (stmt ∷ stmts) live_after cfg file (state, errors) =
    let (state, errors) = apply_stmt stmt cfg state errors file in
    apply_stmts (i + 1) stmts live_after cfg file (prune state (get_or live_after i []), errors)

unfoldable pub apply_block :
    BasicBlock
    → Cfg
    → BorrowSet
    → LivenessAnalysis
    → BlockId
    → List Error
    → String
    → BorrowSet × List Error
apply_block block cfg state liveness block_id errors file =
    let live_after =
      compute_live_after_per_stmt block (get_or liveness.block_out block_id Liveness.empty) in
    apply_stmts 0 block.stmts live_after cfg file (state, errors)
