-- ===== src/Borrowck/Borrows/Reports.antt =====
-- Accesses that conflict with a loan, and the checks of src/borrowck/borrows.rs that report them.
pub mod Checks
pub mod Stmt
use pocket_rust.Prelude.{
  All-map, All-append, ◌≡◌, ◌↔◌, ◌⊎◌, inl, inr, refl, sym, ap, ◌∙◌, Bool, true, false, ◌&&◌, ◌||◌,
  All, List, [], ◌∷◌, ◌++◌, String, ◌+++◌, if◌then◌else◌, any, push, for_each, append-nil,
  append_assoc, Bool-cases, any-Memᴰ, push-Memᴰ, Option, none, some,
}
use mathlib.Core.Logic.{⊎_elim}
use mathlib.Core.Path.{subst}
use mathlib.Core.List.{Memᴰ}
use mathlib.Core.List.Memᴰ
use pocket_rust.Span.{Span, Error}
use pocket_rust.Borrowck.Cfg.{
  Place, OperandKind, move, copy, const_int, const_bool, const_unit, const_str, Operand, Cfg,
  overlaps, render,
}
use pocket_rust.Borrowck.Cfg.Places.{Prefix, overlaps-Prefix}
use pocket_rust.Borrowck.Borrows.{
  ActiveBorrow, BorrowSet, against, check_borrow, first_conflict, check_write, check_move,
  check_read_shared, read_kind, apply_operand_read, read_all, read_fields,
}

pub data AccessKind : Type 0 where
  reading moving writing sharing reserving : AccessKind

-- Moves, writes and mutable borrows need the place for themselves.
abbrev pub exclusive : AccessKind → Bool
exclusive reading = false
exclusive moving = true
exclusive writing = true
exclusive sharing = false
exclusive reserving = true

pub record Access : Type 0 where
  pub kind : AccessKind
  pub place : Place
  pub span : Span

-- An access conflicts with a loan when the places overlap and one of the two is exclusive.
abbrev pub Conflict : Access → ActiveBorrow → Type 0
Conflict a b =
    (Prefix b.place a.place ⊎ Prefix a.place b.place) × ((exclusive a.kind || b.mutable) ≡ true)

-- What an error says about a place, by the kind of the access and whether the loan is mutable.
abbrev pub complaint : AccessKind → Bool → String → String
complaint reading m place = "cannot use `" +++ place +++ "` because it is mutably borrowed"
complaint moving m place = "cannot move `" +++ place +++ "` while it is borrowed"
complaint writing m place = "cannot assign to `" +++ place +++ "` while it is borrowed"
complaint sharing m place =
    "cannot borrow " +++ ("`" +++ place +++ "`") +++ " as immutable: already borrowed as mutable"
complaint reserving true place =
    "cannot borrow " +++ ("`" +++ place +++ "`") +++ " as mutable: already borrowed as mutable"
complaint reserving false place =
    "cannot borrow " +++ ("`" +++ place +++ "`") +++ " as mutable: already borrowed as immutable"

-- The error about the access and the loan: it names the place and stands at the access.
abbrev pub report : Cfg → String → Access → ActiveBorrow → Error
report cfg file a b = record {
  file = file;
  message = complaint a.kind b.mutable (render a.place cfg.locals);
  span = a.span;
}

-- The access conflicts with no loan of the set.
abbrev pub Free : Access → BorrowSet → Type 0
Free a state = (b : ActiveBorrow) → Memᴰ b state.borrows → Conflict a b → ⊥

-- The errors stand behind the old ones, there are none exactly when `Clear` holds, and each is `Good`.
pub record Reports (Clear : Type 0) (Good : Error → Type 0) (before after : List Error)
    : Type 0 where
  pub news : List Error
  pub split : after ≡ before ++ news
  pub clear : (news ≡ []) ↔ Clear
  pub good : All Good news

append-empty : (xs ys : List Error) → (xs ++ ys ≡ []) ↔ ((xs ≡ []) × (ys ≡ []))
append-empty [] ys = (λ h. (refl, h), λ h. h.1)
append-empty (x ∷ xs) ys = (λ h. absurd (cc), λ h. let q = h.0 in absurd (cc))

pub Reports-nothing :
    (Clear : Type 0) (Good : Error → Type 0) (errors : List Error)
    → Clear
    → Reports Clear Good errors errors
Reports-nothing Clear Good errors c = record {
  news = [];
  split = sym (append-nil errors);
  clear = (λ h. c, λ h. refl);
  good = tt;
}

pub Reports-one :
    (Clear : Type 0) (Good : Error → Type 0) (errors : List Error) (e : Error)
    → (Clear → ⊥)
    → Good e
    → Reports Clear Good errors (push errors e)
Reports-one Clear Good errors e c g = record {
  news = e ∷ [];
  split = refl;
  clear = (λ h. absurd (cc), λ h. absurd (c h));
  good = (g, tt);
}

pub Reports-then :
    (C D E : Type 0) (P Q R : Error → Type 0) (e f g : List Error)
    → Reports C P e f
    → Reports D Q f g
    → (E ↔ (C × D))
    → ((x : Error) → P x → R x)
    → ((x : Error) → Q x → R x)
    → Reports E R e g
Reports-then C D E P Q R e f g a b both p q =
    let empty = append-empty a.news b.news in
    record {
      news = a.news ++ b.news;
      split = b.split ∙ ap (λ xs. xs ++ b.news) a.split ∙ append_assoc e a.news b.news;
      clear = (
        λ h. let (x, y) = empty.0 h in both.1 (a.clear.0 x, b.clear.0 y),
        λ h. let (x, y) = both.0 h in empty.1 (a.clear.1 x, b.clear.1 y),
      );
      good = All-append R a.news b.news (All-map P R a.news p a.good) (All-map Q R b.news q b.good);
    }

module _ (cfg : Cfg) (file : String) (state : BorrowSet) where
  -- The error is the one about one of the accesses and one of the loans, which conflict.
  abbrev pub Blames : (Access → Type 0) → Error → Type 0
  Blames Accesses e =
      (a : Access) × (b : ActiveBorrow) × Accesses a
      × Memᴰ b state.borrows
      × Conflict a b
      × (e ≡ report cfg file a b)

  -- The check reports exactly the conflicts of the accesses with the loans.
  abbrev pub Finds : (Access → Type 0) → List Error → List Error → Type 0
  Finds Accesses before after =
      Reports ((a : Access) → Accesses a → Free a state) (Blames Accesses) before after

  pub Finds-nothing :
      (A : Access → Type 0) (errors : List Error) → ((a : Access) → A a → ⊥) → Finds A errors errors
  Finds-nothing A errors none_there =
      Reports-nothing ((a : Access) → A a → Free a state) (Blames A) errors
        (λ a h. absurd (none_there a h))

  pub Finds-then :
      (A B : Access → Type 0) (e f g : List Error)
      → Finds A e f
      → Finds B f g
      → Finds (λ a. A a ⊎ B a) e g
  Finds-then A B e f g x y =
      Reports-then ((a : Access) → A a → Free a state) ((a : Access) → B a → Free a state)
        ((a : Access) → (A a ⊎ B a) → Free a state) (Blames A) (Blames B) (Blames (λ a. A a ⊎ B a))
        e f g x y
        (λ h. (λ a p. h a (inl p), λ a p. h a (inr p)), λ h a. ⊎_elim (λ p. h.0 a p) (λ p. h.1 a p))
        (λ e h. let (a, b, p, m, c, k) = h in (a, b, inl p, m, c, k))
        (λ e h. let (a, b, p, m, c, k) = h in (a, b, inr p, m, c, k))

  pub first_conflict-Finds :
      (access : Access) (test : ActiveBorrow → Bool) (errors : List Error) (e : Error)
      → ((b : ActiveBorrow) → (test b ≡ true) ↔ Conflict access b)
      → ((b : ActiveBorrow) → e ≡ report cfg file access b)
      → Finds (λ a. a ≡ access) errors (first_conflict test state errors e)
  first_conflict-Finds access test errors e exact f =
      let found = any-Memᴰ test state.borrows in
      let Clear : Type 0 = (a : Access) → (a ≡ access) → Free a state in
      elim (Bool-cases (any test state.borrows)) [
        | inl h ↦
            let (b, m, t) = found.0 h in
            let conflict = (exact b).0 t in
            subst (λ c. Finds (λ a. a ≡ access) errors (if c then push errors e else errors))
              (sym h)
              (Reports-one ((a : Access) → (a ≡ access) → Free a state) (Blames (λ a. a ≡ access))
                errors e (λ clear. clear access refl b m conflict)
                (access, b, refl, m, conflict, f b))
        | inr h ↦
            subst (λ c. Finds (λ a. a ≡ access) errors (if c then push errors e else errors))
              (sym h)
              (Reports-nothing ((a : Access) → (a ≡ access) → Free a state)
                (Blames (λ a. a ≡ access)) errors
                (λ a same b m c.
                  let c' : Conflict access b = subst (λ x. Conflict x b) same c in
                  let t : any test state.borrows ≡ true = found.1 (b, m, (exact b).1 c') in
                  absurd (cc)))
      ]
