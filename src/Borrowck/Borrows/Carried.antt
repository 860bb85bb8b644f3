-- ===== src/Borrowck/Borrows/Carried.antt =====
-- The loans that an assigned value carries.
use pocket_rust.Prelude.{
  ◌≡◌, ◌↔◌, inl, inr, refl, sym, ◌==◌, Bool, true, not, ◌&&◌, List, [], ◌∷◌, String, for_each,
  if◌then◌else◌, Bool-cases,
}
use mathlib.Core.Logic.{⊎_elim}
use mathlib.Core.Path.{subst}
use mathlib.Core.List.{Memᴰ}
use mathlib.Core.List.Memᴰ
use pocket_rust.Span.{Span}
use pocket_rust.Borrowck.Cfg.{
  LocalId, OperandKind, move, copy, const_int, const_bool, const_unit, const_str, Operand, unit,
  tuple, struct, Rvalue, use_operand, borrow, cast, call, struct_lit, tuple_lit, variant, builtin,
  discriminant,
}
use pocket_rust.Borrowck.Liveness.Uses.{OperandReads, SomeReads, FieldReads, RvalueReads}
use pocket_rust.Borrowck.Borrows.{ActiveBorrow, contains}
use pocket_rust.Borrowck.Borrows.LiveAfter.{insert_local}
use pocket_rust.Borrowck.Borrows.LiveAfter.Uses.{Adds, Adds-nothing, Adds-insert, Adds-then}
use pocket_rust.Borrowck.Borrows.Transfer.{
  push_kind, push_op, collect_rvalue_source_locals, carried,
}

-- The locals whose values the value carries.
abbrev pub CarriesFrom : Rvalue → LocalId → Type 0
CarriesFrom (borrow mutable place region) l = ⊥
CarriesFrom (discriminant place) l = ⊥
CarriesFrom rv l = RvalueReads rv l

Adds-push_kind :
    (k : OperandKind) (out : List LocalId) → Adds (OperandReads k) out (push_kind k out)
unfolding insert_local
Adds-push_kind (move p) out = Adds-insert out p.root
Adds-push_kind (copy p) out = Adds-insert out p.root
Adds-push_kind (const_int n) out = Adds-nothing out
Adds-push_kind (const_bool b) out = Adds-nothing out
Adds-push_kind const_unit out = Adds-nothing out
Adds-push_kind (const_str t) out = Adds-nothing out

Adds-ops :
    (ops : List Operand) (out : List LocalId) → Adds (SomeReads ops) out (for_each push_op out ops)
unfolding for_each
Adds-ops [] out = Adds-nothing out
Adds-ops (op ∷ ops) out = Adds-then (Adds-push_kind op.kind out) (Adds-ops ops (push_op out op))

Adds-fields :
    (fields : List (String × Operand)) (out : List LocalId)
    → Adds (FieldReads fields) out (for_each (λ out field. push_op out field.1) out fields)
unfolding for_each
Adds-fields [] out = Adds-nothing out
Adds-fields ((name, op) ∷ fields) out =
    Adds-then (Adds-push_kind op.kind out) (Adds-fields fields (push_op out op))

pub Adds-sources :
    (rv : Rvalue) (out : List LocalId)
    → Adds (CarriesFrom rv) out (collect_rvalue_source_locals rv out)
unfolding collect_rvalue_source_locals
Adds-sources (use_operand op) out = Adds-push_kind op.kind out
Adds-sources (borrow mutable place region) out = Adds-nothing out
Adds-sources (cast source target_ty) out = Adds-push_kind source.kind out
Adds-sources (call callee args id) out = Adds-ops args out
Adds-sources (struct_lit p type_args fields) out = Adds-fields fields out
Adds-sources (tuple_lit ops) out = Adds-ops ops out
Adds-sources (variant p type_args disc unit) out = Adds-nothing out
Adds-sources (variant p type_args disc (tuple ops)) out = Adds-ops ops out
Adds-sources (variant p type_args disc (struct fields)) out = Adds-fields fields out
Adds-sources (builtin name args) out = Adds-ops args out
Adds-sources (discriminant place) out = Adds-nothing out

abbrev pub moved_to : LocalId → Span → ActiveBorrow → ActiveBorrow
moved_to root span b = record {
  id = b.id;
  place = b.place;
  mutable = b.mutable;
  dest = root;
  span = span;
}

-- A loan of another local that the test takes, on the new destination.
abbrev Copied : (ActiveBorrow → Bool) → LocalId → Span → List ActiveBorrow → ActiveBorrow → Type 0
Copied test root span bs b =
    (old : ActiveBorrow) × Memᴰ old bs × (test old ≡ true) × (b ≡ moved_to root span old)

pub carried-Copied :
    (sources : List LocalId) (root : LocalId) (span : Span) (bs : List ActiveBorrow)
    (b : ActiveBorrow)
    → Memᴰ b (carried sources root span bs)
      ↔ Copied (λ old. contains sources old.dest && not (old.dest == root)) root span bs b
unfolding carried
carried-Copied sources root span [] b =
    (λ m. absurd (Memᴰ.not-nil m), λ (old, m, t, e). absurd (Memᴰ.not-nil m))
carried-Copied sources root span (x ∷ xs) b =
    let test : ActiveBorrow → Bool = λ old. contains sources old.dest && not (old.dest == root) in
    let rest = carried-Copied sources root span xs b in
    let Goal : Bool → Type 0 = λ c.
      Memᴰ b (
        if c
        then moved_to root span x ∷ carried sources root span xs
        else carried sources root span xs)
      ↔ Copied test root span (x ∷ xs) b in
    elim (Bool-cases (test x)) [
      | inl e ↦ subst Goal (sym e) (
        λ m.
            ⊎_elim (λ f. (x, Memᴰ.head refl, e, f))
              (λ k. let (old, p, t, f) = rest.0 k in (old, Memᴰ.tail p, t, f)) (Memᴰ.cases_cons m),
        λ (old, p, t, f).
            ⊎_elim (λ q. Memᴰ.head (subst (λ y. b ≡ moved_to root span y) q f))
              (λ k. Memᴰ.tail (rest.1 (old, k, t, f))) (Memᴰ.cases_cons p),
      )
      | inr e ↦ subst Goal (sym e) (
        λ m. let (old, p, t, f) = rest.0 m in (old, Memᴰ.tail p, t, f),
        λ (old, p, t, f).
            ⊎_elim (λ q. let t' : test x ≡ true = subst (λ y. test y ≡ true) q t in absurd (cc))
              (λ k. rest.1 (old, k, t, f)) (Memᴰ.cases_cons p),
      )
    ]
