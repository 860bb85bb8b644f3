-- ===== src/Borrowck/Borrows/LiveAfter/Uses.antt =====
-- What the backward walk over a block adds to the set of live locals, and what it drops.
use pocket_rust.Prelude.{
  ◌≡◌, ◌↔◌, ◌⊎◌, inl, inr, refl, sym, Bool, true, false, not, ◌==◌, List, [], ◌∷◌, String, is_empty,
  push, retain, for_each, if◌then◌else◌, Bool-cases, ==_iff, any-Memᴰ, retain-Memᴰ, push-Memᴰ,
  arith,
}
use native.Mathlib.Decide.{ℕ_discrete}
use mathlib.Core.Logic.{⊎_elim}
use mathlib.Core.Path.{subst}
use mathlib.Core.List.{Memᴰ}
use pocket_rust.Borrowck.Cfg.{
  LocalId, Place, OperandKind, move, copy, const_int, const_bool, const_unit, const_str, Operand,
  unit, tuple, struct, Rvalue, use_operand, borrow, cast, call, struct_lit, tuple_lit, variant,
  builtin, discriminant, CfgStmtKind, assign, drop as drop_place, storage_live, storage_dead,
  uninit, Terminator, goto, if_branch, switch_int, return, unreachable,
}
use pocket_rust.Borrowck.Liveness.Uses.{
  OperandReads, SomeReads, FieldReads, RvalueReads, StmtReads, StmtKills, TerminatorReads,
}
use pocket_rust.Borrowck.Borrows.{contains}
use pocket_rust.Borrowck.Borrows.LiveAfter.{
  insert_local, use_kind, mark_operand_uses, mark_all, mark_fields, mark_rvalue_uses, kind_backward,
  transfer_terminator_backward,
}

pub contains-Memᴰ : (xs : List LocalId) (l : LocalId) → (contains xs l ≡ true) ↔ Memᴰ l xs
unfolding contains
contains-Memᴰ xs l =
    let found = any-Memᴰ (λ x. x == l) xs in
    (
      λ h. let (a, m, t) = found.0 h in subst (λ x. Memᴰ x xs) ((==_iff a l).0 t) m,
      λ m. found.1 (l, m, (==_iff l l).1 refl),
    )

-- `t` has the locals of `P` and those of `s`.
abbrev pub Adds : (LocalId → Type 0) → List LocalId → List LocalId → Type 0
Adds P s t = (l : LocalId) → Memᴰ l t ↔ (P l ⊎ Memᴰ l s)

pub Adds-nothing : (s : List LocalId) → Adds (λ l. ⊥) s s
Adds-nothing s l = (λ m. inr m, ⊎_elim (λ e. absurd e) (λ m. m))

pub Adds-insert : (s : List LocalId) (r : LocalId) → Adds (λ l. l ≡ r) s (insert_local s r)
unfolding insert_local
Adds-insert s r l = elim (Bool-cases (contains s r)) [
  | inl e ↦
      subst (λ b. Memᴰ l (if not b then push s r else s) ↔ ((l ≡ r) ⊎ Memᴰ l s)) (sym e)
        (λ m. inr m, ⊎_elim (λ q. subst (λ x. Memᴰ x s) (sym q) ((contains-Memᴰ s r).0 e)) (λ m. m))
  | inr e ↦
      let added = push-Memᴰ s r l in
      subst (λ b. Memᴰ l (if not b then push s r else s) ↔ ((l ≡ r) ⊎ Memᴰ l s)) (sym e)
        (
          λ m. ⊎_elim (λ o. inr o) (λ q. inl q) (added.0 m),
          ⊎_elim (λ q. added.1 (inr q)) (λ o. added.1 (inl o)),
        )
]

pub Adds-then :
    {P Q : LocalId → Type 0} {s t u : List LocalId}
    → Adds P s t
    → Adds Q t u
    → Adds (λ l. P l ⊎ Q l) s u
Adds-then a b l = (
  λ h.
      ⊎_elim (λ q. inl (inr q)) (λ k. ⊎_elim (λ p. inl (inl p)) (λ m. inr m) ((a l).0 k))
        ((b l).0 h),
  ⊎_elim (⊎_elim (λ p. (b l).1 (inr ((a l).1 (inl p)))) (λ q. (b l).1 (inl q)))
      (λ m. (b l).1 (inr ((a l).1 (inr m)))),
)

Adds-operand : (k : OperandKind) (s : List LocalId) → Adds (OperandReads k) s (use_kind k s)
Adds-operand (move p) s = Adds-insert s p.root
Adds-operand (copy p) s = Adds-insert s p.root
Adds-operand (const_int n) s = Adds-nothing s
Adds-operand (const_bool b) s = Adds-nothing s
Adds-operand const_unit s = Adds-nothing s
Adds-operand (const_str t) s = Adds-nothing s

Adds-all : (ops : List Operand) (s : List LocalId) → Adds (SomeReads ops) s (mark_all ops s)
unfolding mark_all for_each mark_operand_uses
Adds-all [] s = Adds-nothing s
Adds-all (op ∷ ops) s = Adds-then (Adds-operand op.kind s) (Adds-all ops (use_kind op.kind s))

Adds-fields :
    (fields : List (String × Operand)) (s : List LocalId)
    → Adds (FieldReads fields) s (mark_fields fields s)
unfolding mark_fields for_each mark_operand_uses
Adds-fields [] s = Adds-nothing s
Adds-fields ((name, op) ∷ fields) s =
    Adds-then (Adds-operand op.kind s) (Adds-fields fields (use_kind op.kind s))

Adds-rvalue : (rv : Rvalue) (s : List LocalId) → Adds (RvalueReads rv) s (mark_rvalue_uses rv s)
unfolding mark_rvalue_uses mark_operand_uses
Adds-rvalue (use_operand op) s = Adds-operand op.kind s
Adds-rvalue (borrow mutable place region) s = Adds-insert s place.root
Adds-rvalue (cast source target_ty) s = Adds-operand source.kind s
Adds-rvalue (call callee args id) s = Adds-all args s
Adds-rvalue (struct_lit p type_args fields) s = Adds-fields fields s
Adds-rvalue (tuple_lit ops) s = Adds-all ops s
Adds-rvalue (variant p type_args disc unit) s = Adds-nothing s
Adds-rvalue (variant p type_args disc (tuple ops)) s = Adds-all ops s
Adds-rvalue (variant p type_args disc (struct fields)) s = Adds-fields fields s
Adds-rvalue (builtin name args) s = Adds-all args s
Adds-rvalue (discriminant place) s = Adds-insert s place.root

pub Adds-terminator :
    (t : Terminator) (s : List LocalId)
    → Adds (TerminatorReads t) s (transfer_terminator_backward t s)
unfolding transfer_terminator_backward mark_operand_uses
Adds-terminator (goto b) s = Adds-nothing s
Adds-terminator (if_branch cond then_block else_block) s = Adds-operand cond.kind s
Adds-terminator (switch_int operand targets otherwise) s = Adds-operand operand.kind s
Adds-terminator return s = Adds-nothing s
Adds-terminator unreachable s = Adds-nothing s

-- A statement adds what it reads, and drops what it overwrites.
abbrev pub Steps : CfgStmtKind → List LocalId → List LocalId → Type 0
Steps k s t = (l : LocalId) → Memᴰ l t ↔ (StmtReads k l ⊎ (StmtKills k l → ⊥) × Memᴰ l s)

Adds-Steps :
    (k : CfgStmtKind) (s t : List LocalId)
    → ((l : LocalId) → StmtKills k l → ⊥)
    → Adds (StmtReads k) s t
    → Steps k s t
Adds-Steps k s t spares m l = (
  λ p. ⊎_elim (λ q. inl q) (λ q. inr (spares l, q)) ((m l).0 p),
  λ p. (m l).1 (⊎_elim (λ q. inl q) (λ q. inr q.1) p),
)

other-Memᴰ :
    (s : List LocalId) (r l : LocalId)
    → Memᴰ l (retain (λ x. not (x == r)) s) ↔ ((l ≡ r → ⊥) × Memᴰ l s)
other-Memᴰ s r l =
    let kept = retain-Memᴰ (λ x. not (x == r)) s l in
    (
      λ m. let (p, t) = kept.0 m in (λ e. ground (arith, t, e), p),
      λ (n, p). kept.1 (p, elim (ℕ_discrete l r) [ yes e ↦ absurd (n e) | no f ↦ ground arith ]),
    )

Steps-target :
    (place : Place) (rv : Rvalue) (s : List LocalId) (whole : Bool)
    → is_empty place.projections ≡ whole
    → Steps
        (assign place rv)
        s
        (mark_rvalue_uses rv (if whole then retain (λ x. not (x == place.root)) s else s))
Steps-target place rv s true e l =
    let kept = retain (λ x. not (x == place.root)) s in
    let m = Adds-rvalue rv kept l in
    let o = other-Memᴰ s place.root l in
    (
      λ p. ⊎_elim (λ q. inl q) (λ q. let (n, k) = o.0 q in inr (λ x. n x.1, k)) (m.0 p),
      λ p. m.1 (⊎_elim (λ q. inl q) (λ q. inr (o.1 (λ x. q.0 (e, x), q.1))) p),
    )
Steps-target place rv s false e l =
    Adds-Steps (assign place rv) s (mark_rvalue_uses rv s) (λ l k. let q = k.0 in absurd (cc))
      (Adds-rvalue rv s) l

pub Steps-kind : (k : CfgStmtKind) (s : List LocalId) → Steps k s (kind_backward k s)
Steps-kind (assign place rv) s = Steps-target place rv s (is_empty place.projections) refl
Steps-kind (drop_place place) s =
    Adds-Steps (drop_place place) s (insert_local s place.root) (λ l e. e)
      (Adds-insert s place.root)
Steps-kind (storage_live l) s = Adds-Steps (storage_live l) s (s) (λ l e. e) (Adds-nothing s)
Steps-kind (storage_dead l) s = Adds-Steps (storage_dead l) s (s) (λ l e. e) (Adds-nothing s)
Steps-kind (uninit l) s = Adds-Steps (uninit l) s (s) (λ l e. e) (Adds-nothing s)
