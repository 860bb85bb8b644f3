-- ===== src/Borrowck/Liveness/Uses.antt =====
-- What a statement and a terminator read and overwrite, and what their transfer functions add and drop.
use pocket_rust.Prelude.{
  ◌≡◌, ◌↔◌, ◌⊎◌, inl, inr, refl, Bool, true, false, is_empty, if◌then◌else◌, List, [], ◌∷◌, String,
  for_each,
}
use mathlib.Core.Logic.{⊎_elim}
use pocket_rust.Borrowck.Cfg.{
  LocalId, Place, OperandKind, move, copy, const_int, const_bool, const_unit, const_str, Operand,
  unit, tuple, struct, Rvalue, use_operand, borrow, cast, call, struct_lit, tuple_lit, variant,
  builtin, discriminant, CfgStmtKind, assign, drop, storage_live, storage_dead, uninit, CfgStmt,
  Terminator, goto, if_branch, switch_int, return, unreachable,
}
use pocket_rust.Borrowck.Liveness.{
  LiveSet, insert, remove, mark_kind_uses, mark_operand_uses, mark_all, mark_fields,
  mark_rvalue_uses, transfer_kind, transfer_stmt, transfer_terminator,
}
use pocket_rust.Borrowck.Liveness.Sets.{
  Has, insert-Has, remove-Has, insert-IsSorted, remove-IsSorted,
}
use pocket_rust.Borrowck.Liveness.Sets.Sorted.{IsSorted}

abbrev pub OperandReads : OperandKind → LocalId → Type 0
OperandReads (move p) l = l ≡ p.root
OperandReads (copy p) l = l ≡ p.root
OperandReads _ l = ⊥

abbrev pub SomeReads : List Operand → LocalId → Type 0
SomeReads [] l = ⊥
SomeReads (op ∷ ops) l = OperandReads op.kind l ⊎ SomeReads ops l

abbrev pub FieldReads : List (String × Operand) → LocalId → Type 0
FieldReads [] l = ⊥
FieldReads ((name, op) ∷ fields) l = OperandReads op.kind l ⊎ FieldReads fields l

abbrev pub RvalueReads : Rvalue → LocalId → Type 0
RvalueReads (use_operand op) l = OperandReads op.kind l
RvalueReads (borrow mutable place region) l = l ≡ place.root
RvalueReads (cast source target_ty) l = OperandReads source.kind l
RvalueReads (call callee args id) l = SomeReads args l
RvalueReads (struct_lit p type_args fields) l = FieldReads fields l
RvalueReads (tuple_lit ops) l = SomeReads ops l
RvalueReads (variant p type_args disc unit) l = ⊥
RvalueReads (variant p type_args disc (tuple ops)) l = SomeReads ops l
RvalueReads (variant p type_args disc (struct fields)) l = FieldReads fields l
RvalueReads (builtin name args) l = SomeReads args l
RvalueReads (discriminant place) l = l ≡ place.root

-- The statement reads the local.
abbrev pub StmtReads : CfgStmtKind → LocalId → Type 0
StmtReads (assign place rvalue) l = RvalueReads rvalue l
StmtReads (drop place) l = l ≡ place.root
StmtReads _ l = ⊥

-- The statement overwrites the whole local.
abbrev pub StmtKills : CfgStmtKind → LocalId → Type 0
StmtKills (assign place rvalue) l = (is_empty place.projections ≡ true) × (l ≡ place.root)
StmtKills _ l = ⊥

-- The terminator reads the local.
abbrev pub TerminatorReads : Terminator → LocalId → Type 0
TerminatorReads (if_branch cond then_block else_block) l = OperandReads cond.kind l
TerminatorReads (switch_int operand targets otherwise) l = OperandReads operand.kind l
TerminatorReads _ l = ⊥

-- `t` has what `s` has and the locals of `P`.
pub record Marks (P : LocalId → Type 0) (s t : LiveSet) : Type 0 where
  pub keeps_order : IsSorted s.locals → IsSorted t.locals
  pub has : (l : LocalId) → Has t l ↔ (P l ⊎ Has s l)

Marks-insert : (s : LiveSet) (r : LocalId) → Marks (λ l. l ≡ r) s (insert s r).1
Marks-insert s r = record { keeps_order = insert-IsSorted s r; has = λ l. insert-Has s r l }

Marks-nothing : (s : LiveSet) → Marks (λ l. ⊥) s s
Marks-nothing s = record {
  keeps_order = λ h. h;
  has = λ l. (λ h. inr h, ⊎_elim (λ e. absurd e) (λ h. h));
}

Marks-then :
    {P Q : LocalId → Type 0} {s t u : LiveSet}
    → Marks P s t
    → Marks Q t u
    → Marks (λ l. P l ⊎ Q l) s u
Marks-then a b = record {
  keeps_order = λ h. b.keeps_order (a.keeps_order h);
  has = λ l. (
    λ h.
        ⊎_elim (λ q. inl (inr q)) (λ k. ⊎_elim (λ p. inl (inl p)) (λ m. inr m) ((a.has l).0 k))
          ((b.has l).0 h),
    ⊎_elim (⊎_elim (λ p. (b.has l).1 (inr ((a.has l).1 (inl p)))) (λ q. (b.has l).1 (inl q)))
        (λ m. (b.has l).1 (inr ((a.has l).1 (inr m)))),
  );
}

Marks-operand : (k : OperandKind) (s : LiveSet) → Marks (OperandReads k) s (mark_kind_uses k s)
Marks-operand (move p) s = Marks-insert s p.root
Marks-operand (copy p) s = Marks-insert s p.root
Marks-operand (const_int n) s = Marks-nothing s
Marks-operand (const_bool b) s = Marks-nothing s
Marks-operand const_unit s = Marks-nothing s
Marks-operand (const_str t) s = Marks-nothing s

Marks-all : (ops : List Operand) (s : LiveSet) → Marks (SomeReads ops) s (mark_all ops s)
unfolding mark_all for_each mark_operand_uses
Marks-all [] s = Marks-nothing s
Marks-all (op ∷ ops) s =
    Marks-then (Marks-operand op.kind s) (Marks-all ops (mark_operand_uses op s))

Marks-fields :
    (fields : List (String × Operand)) (s : LiveSet)
    → Marks (FieldReads fields) s (mark_fields fields s)
unfolding mark_fields for_each mark_operand_uses
Marks-fields [] s = Marks-nothing s
Marks-fields ((name, op) ∷ fields) s =
    Marks-then (Marks-operand op.kind s) (Marks-fields fields (mark_operand_uses op s))

Marks-rvalue : (rv : Rvalue) (s : LiveSet) → Marks (RvalueReads rv) s (mark_rvalue_uses rv s)
unfolding mark_rvalue_uses mark_operand_uses
Marks-rvalue (use_operand op) s = Marks-operand op.kind s
Marks-rvalue (borrow mutable place region) s = Marks-insert s place.root
Marks-rvalue (cast source target_ty) s = Marks-operand source.kind s
Marks-rvalue (call callee args id) s = Marks-all args s
Marks-rvalue (struct_lit p type_args fields) s = Marks-fields fields s
Marks-rvalue (tuple_lit ops) s = Marks-all ops s
Marks-rvalue (variant p type_args disc unit) s = Marks-nothing s
Marks-rvalue (variant p type_args disc (tuple ops)) s = Marks-all ops s
Marks-rvalue (variant p type_args disc (struct fields)) s = Marks-fields fields s
Marks-rvalue (builtin name args) s = Marks-all args s
Marks-rvalue (discriminant place) s = Marks-insert s place.root

pub Marks-terminator :
    (t : Terminator) (s : LiveSet) → Marks (TerminatorReads t) s (transfer_terminator t s)
unfolding transfer_terminator mark_operand_uses
Marks-terminator (goto b) s = Marks-nothing s
Marks-terminator (if_branch cond then_block else_block) s = Marks-operand cond.kind s
Marks-terminator (switch_int operand targets otherwise) s = Marks-operand operand.kind s
Marks-terminator return s = Marks-nothing s
Marks-terminator unreachable s = Marks-nothing s

-- A statement adds what it reads, and drops what it overwrites.
pub record Passes (k : CfgStmtKind) (s t : LiveSet) : Type 0 where
  pub order : IsSorted t.locals
  pub has : (l : LocalId) → Has t l ↔ (StmtReads k l ⊎ (StmtKills k l → ⊥) × Has s l)

Passes-Marks :
    {k : CfgStmtKind} {s t : LiveSet}
    → ((l : LocalId) → StmtKills k l → ⊥)
    → Marks (StmtReads k) s t
    → IsSorted s.locals
    → Passes k s t
Passes-Marks spares m h = record {
  order = m.keeps_order h;
  has = λ l. (
    λ p. ⊎_elim (λ q. inl q) (λ q. inr (spares l, q)) ((m.has l).0 p),
    λ p. (m.has l).1 (⊎_elim (λ q. inl q) (λ q. inr q.1) p),
  );
}

Passes-target :
    (place : Place) (rv : Rvalue) (s : LiveSet) (whole : Bool)
    → IsSorted s.locals
    → is_empty place.projections ≡ whole
    → Passes
        (assign place rv)
        s
        (mark_rvalue_uses rv (if whole then (remove s place.root).1 else s))
Passes-target place rv s true h e =
    let m = Marks-rvalue rv (remove s place.root).1 in
    record {
      order = m.keeps_order (remove-IsSorted s place.root h);
      has = λ l.
          let r = remove-Has s place.root l h in
          (
            λ p.
                ⊎_elim (λ q. inl q) (λ q. let k = r.0 q in inr (λ x. k.0 x.1, k.1)) ((m.has l).0 p),
            λ p. (m.has l).1 (⊎_elim (λ q. inl q) (λ q. inr (r.1 (λ x. q.0 (e, x), q.1))) p),
          );
    }
Passes-target place rv s false h e =
    Passes-Marks (λ l k. let q = k.0 in absurd (cc)) (Marks-rvalue rv s) h

Passes-assign :
    (place : Place) (rv : Rvalue) (s : LiveSet)
    → IsSorted s.locals
    → Passes (assign place rv) s (transfer_kind (assign place rv) s)
Passes-assign place rv s h = Passes-target place rv s (is_empty place.projections) h refl

Passes-kind : (k : CfgStmtKind) (s : LiveSet) → IsSorted s.locals → Passes k s (transfer_kind k s)
Passes-kind (assign place rv) s h = Passes-assign place rv s h
Passes-kind (drop place) s h = Passes-Marks (λ l e. e) (Marks-insert s place.root) h
Passes-kind (storage_live l) s h = Passes-Marks (λ l e. e) (Marks-nothing s) h
Passes-kind (storage_dead l) s h = Passes-Marks (λ l e. e) (Marks-nothing s) h
Passes-kind (uninit l) s h = Passes-Marks (λ l e. e) (Marks-nothing s) h

pub Passes-stmt :
    (stmt : CfgStmt) (s : LiveSet) → IsSorted s.locals → Passes stmt.kind s (transfer_stmt stmt s)
unfolding transfer_stmt
Passes-stmt stmt s h = Passes-kind stmt.kind s h
