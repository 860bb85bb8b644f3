-- ===== src/Borrowck/Borrows/Loans.antt =====
-- Which loans an assignment adds: a new one, or those that the assigned value carries.
use pocket_rust.Prelude.{
  ◌≡◌, ◌≢◌, ◌↔◌, ◌⊎◌, inl, inr, refl, sym, ℕ, ◌==◌, Bool, true, false, not, ◌&&◌, List, [], ◌∷◌,
  ◌++◌, get_elem?, is_empty, if◌then◌else◌, Bool-cases, push-Memᴰ, append-Memᴰ, arith,
}
use mathlib.Core.Logic.{⊎_elim}
use mathlib.Core.Path.{subst}
use mathlib.Core.List.{Memᴰ}
use mathlib.Core.List.Memᴰ
use pocket_rust.Span.{Span}
use pocket_rust.Borrowck.Cfg.{
  LocalId, Place, Rvalue, use_operand, borrow, cast, call, struct_lit, tuple_lit, variant, builtin,
  discriminant, Cfg,
}
use pocket_rust.Borrowck.Borrows.{ActiveBorrow, BorrowSet, contains}
use pocket_rust.Borrowck.Borrows.LiveAfter.Uses.{contains-Memᴰ}
use pocket_rust.Borrowck.Borrows.Transfer.{
  collect_rvalue_source_locals, dest_contains_ref, carried, propagate, add_loans,
}
use pocket_rust.Borrowck.Borrows.Carried.{CarriesFrom, Adds-sources, moved_to, carried-Copied}

-- The type of the destination may hold a reference, and the loan is one of a local whose value is
-- carried, on the destination.
abbrev pub Inherits : Rvalue → LocalId → Span → Cfg → BorrowSet → ActiveBorrow → Type 0
Inherits rv root span cfg state b =
    (dest_contains_ref (get_elem? cfg.locals root) ≡ true)
    × (old : ActiveBorrow) × Memᴰ old state.borrows
    × CarriesFrom rv old.dest
    × (old.dest ≢ root)
    × (b ≡ moved_to root span old)

both_iff : (a c : Bool) → ((a && c) ≡ true) ↔ ((a ≡ true) × (c ≡ true))
both_iff true c = (λ h. (refl, h), λ h. h.1)
both_iff false c = (λ h. absurd (cc), λ h. let q = h.0 in absurd (cc))

not_iff : (a c : ℕ) → (not (a == c) ≡ true) ↔ (a ≢ c)
not_iff a c = ground arith

carried-Inherits :
    (rv : Rvalue) (root : LocalId) (span : Span) (cfg : Cfg) (state : BorrowSet) (b : ActiveBorrow)
    → dest_contains_ref (get_elem? cfg.locals root) ≡ true
    → Memᴰ b (carried (collect_rvalue_source_locals rv []) root span state.borrows)
      ↔ Inherits rv root span cfg state b
carried-Inherits rv root span cfg state b holds =
    let sources = collect_rvalue_source_locals rv [] in
    let copied = carried-Copied sources root span state.borrows b in
    (
      λ m.
          let (old, p, t, e) = copied.0 m in
          let (c, d) = (both_iff (contains sources old.dest) (not (old.dest == root))).0 t in
          let from = (Adds-sources rv [] old.dest).0 ((contains-Memᴰ sources old.dest).0 c) in
          (
            holds,
            old,
            p,
            ⊎_elim (λ f. f) (λ n. absurd (Memᴰ.not-nil n)) from,
            (not_iff old.dest root).0 d,
            e,
          ),
      λ (h, old, p, from, other, e).
          let c = (contains-Memᴰ sources old.dest).1 ((Adds-sources rv [] old.dest).1 (inl from)) in
          let d = (not_iff old.dest root).1 other in
          copied.1
            (old, p, (both_iff (contains sources old.dest) (not (old.dest == root))).1 (c, d), e),
    )

empty-carried :
    (sources : List LocalId) (root : LocalId) (span : Span) (bs : List ActiveBorrow)
    (b : ActiveBorrow)
    → is_empty sources ≡ true
    → Memᴰ b (carried sources root span bs)
    → ⊥
empty-carried [] root span bs b e m =
    let (old, p, t, f) = (carried-Copied [] root span bs b).0 m in
    let (c, d) = (both_iff (contains [] old.dest) (not (old.dest == root))).0 t in
    absurd (Memᴰ.not-nil ((contains-Memᴰ [] old.dest).0 c))
empty-carried (x ∷ xs) root span bs b e m = absurd (cc)

propagate-Inherits :
    (rv : Rvalue) (root : LocalId) (span : Span) (cfg : Cfg) (state : BorrowSet) (b : ActiveBorrow)
    → Memᴰ b (propagate rv root span cfg state).borrows
      ↔ (Memᴰ b state.borrows ⊎ Inherits rv root span cfg state b)
unfolding propagate
propagate-Inherits rv root span cfg state b =
    let sources = collect_rvalue_source_locals rv [] in
    let more = carried sources root span state.borrows in
    let longer : BorrowSet = record { borrows = state.borrows ++ more } in
    let holds = dest_contains_ref (get_elem? cfg.locals root) in
    let Goal : BorrowSet → Type 0 =
      λ u. Memᴰ b u.borrows ↔ (Memᴰ b state.borrows ⊎ Inherits rv root span cfg state b) in
    let outer : Bool → Bool → BorrowSet =
      λ c d. if c then if not d then longer else state else state in
    elim (Bool-cases holds) [
      | inr e ↦
          subst (λ c. Goal (outer c (is_empty sources))) (sym e)
            (λ m. inl m, ⊎_elim (λ m. m) (λ h. let q = h.0 in absurd (cc)))
      | inl e ↦
          let more_iff = carried-Inherits rv root span cfg state b e in
          subst (λ c. Goal (outer c (is_empty sources))) (sym e)
            (elim (Bool-cases (is_empty sources)) [
              | inl f ↦
                  subst (λ d. Goal (outer true d)) (sym f)
                    (
                      λ m. inl m,
                      ⊎_elim (λ m. m)
                          (λ h.
                            absurd
                              (empty-carried sources root span state.borrows b f (more_iff.1 h))),
                    )
              | inr f ↦
                  let joined = append-Memᴰ state.borrows more b in
                  subst (λ d. Goal (outer true d)) (sym f)
                    (
                      λ m. ⊎_elim (λ k. inl k) (λ k. inr (more_iff.0 k)) (joined.0 m),
                      ⊎_elim (λ k. joined.1 (inl k)) (λ h. joined.1 (inr (more_iff.1 h))),
                    )
            ])
    ]

-- A loan that the assignment adds.
abbrev pub NewLoan : Rvalue → Place → Span → Cfg → BorrowSet → ActiveBorrow → Type 0
NewLoan (borrow mutable borrowed_place region) place span cfg state b = b ≡ record {
  id = region;
  place = borrowed_place;
  mutable = mutable;
  dest = place.root;
  span = span;
}
NewLoan rv place span cfg state b = Inherits rv place.root span cfg state b

pub add_loans-Memᴰ :
    (rv : Rvalue) (place : Place) (span : Span) (cfg : Cfg) (state : BorrowSet) (b : ActiveBorrow)
    → Memᴰ b (add_loans rv place span cfg state).borrows
      ↔ (Memᴰ b state.borrows ⊎ NewLoan rv place span cfg state b)
unfolding add_loans
add_loans-Memᴰ (borrow mutable p region) place span cfg state b = push-Memᴰ state.borrows _ b
add_loans-Memᴰ (use_operand op) place span cfg state b =
    propagate-Inherits (use_operand op) place.root span cfg state b
add_loans-Memᴰ (cast source target_ty) place span cfg state b =
    propagate-Inherits (cast source target_ty) place.root span cfg state b
add_loans-Memᴰ (call callee args id) place span cfg state b =
    propagate-Inherits (call callee args id) place.root span cfg state b
add_loans-Memᴰ (struct_lit p type_args fields) place span cfg state b =
    propagate-Inherits (struct_lit p type_args fields) place.root span cfg state b
add_loans-Memᴰ (tuple_lit ops) place span cfg state b =
    propagate-Inherits (tuple_lit ops) place.root span cfg state b
add_loans-Memᴰ (variant p type_args disc fields) place span cfg state b =
    propagate-Inherits (variant p type_args disc fields) place.root span cfg state b
add_loans-Memᴰ (builtin name args) place span cfg state b =
    propagate-Inherits (builtin name args) place.root span cfg state b
add_loans-Memᴰ (discriminant p) place span cfg state b =
    propagate-Inherits (discriminant p) place.root span cfg state b
