-- ===== src/Borrowck/Borrows/Reports/Checks.antt =====
-- The four checks report exactly the conflicts of one access.
use pocket_rust.Prelude.{
  ◌≡◌, ◌↔◌, refl, ap, Bool, true, false, ◌&&◌, ◌||◌, List, [], ◌∷◌, String, ◌+++◌, if◌then◌else◌,
  push, for_each,
}
use mathlib.Core.Logic.{⊎_elim}
use mathlib.Core.Path.{subst}
use mathlib.Core.List.{Memᴰ}
use mathlib.Core.List.Memᴰ
use pocket_rust.Span.{Span, Error}
use pocket_rust.Borrowck.Cfg.{Place, Cfg, overlaps, render}
use pocket_rust.Borrowck.Cfg.Places.{overlaps-Prefix}
use pocket_rust.Borrowck.Borrows.{
  ActiveBorrow, BorrowSet, conflict_message, against, check_borrow, check_write, check_move,
  check_read_shared,
}
use pocket_rust.Borrowck.Borrows.Reports.{
  AccessKind, reading, moving, writing, sharing, reserving, exclusive, Access, Conflict, complaint,
  Reports, Reports-nothing, Reports-one, Reports-then, Blames, Finds, first_conflict-Finds,
}

and_iff : (a b : Bool) → ((a && b) ≡ true) ↔ ((a ≡ true) × (b ≡ true))
and_iff true b = (λ h. (refl, h), λ h. h.1)
and_iff false b = (λ h. absurd (cc), λ h. let q = h.0 in absurd (cc))

-- The access is the one of the place, at the span.
abbrev pub One : AccessKind → Place → Span → Access → Type 0
One kind place span a = a ≡ record { kind = kind; place = place; span = span }

exclusive-Conflict :
    (kind : AccessKind) (place : Place) (span : Span) (b : ActiveBorrow)
    → exclusive kind ≡ true
    → (overlaps b.place place ≡ true)
      ↔ Conflict (record { kind = kind; place = place; span = span }) b
exclusive-Conflict kind place span b e =
    let o = overlaps-Prefix b.place place in (λ h. (o.0 h, rw e refl), λ h. o.1 h.0)

shared-Conflict :
    (kind : AccessKind) (place : Place) (span : Span) (b : ActiveBorrow)
    → exclusive kind ≡ false
    → ((b.mutable && overlaps b.place place) ≡ true)
      ↔ Conflict (record { kind = kind; place = place; span = span }) b
shared-Conflict kind place span b e =
    let o = overlaps-Prefix b.place place in
    let both = and_iff b.mutable (overlaps b.place place) in
    (
      λ h. let (m, p) = both.0 h in (o.0 p, rw (e, m) refl),
      λ h. both.1 (subst (λ x. (x || b.mutable) ≡ true) e h.1, o.1 h.0),
    )

pub check_write-Finds :
    (place : Place) (state : BorrowSet) (span : Span) (errors : List Error) (cfg : Cfg)
    (file : String)
    → Finds cfg file state
        (One writing place span)
        errors
        (check_write place state span errors cfg file)
unfolding check_write
check_write-Finds place state span errors cfg file =
    first_conflict-Finds cfg file state (record { kind = writing; place = place; span = span })
      (λ b. overlaps b.place place) errors
      (record {
        file = file;
        message = "cannot assign to `" +++ render place cfg.locals +++ "` while it is borrowed";
        span = span;
      })
      (λ b. exclusive-Conflict writing place span b refl) (λ b. refl)

pub check_move-Finds :
    (place : Place) (state : BorrowSet) (span : Span) (errors : List Error) (cfg : Cfg)
    (file : String)
    → Finds cfg file state
        (One moving place span)
        errors
        (check_move place state span errors cfg file)
unfolding check_move
check_move-Finds place state span errors cfg file =
    first_conflict-Finds cfg file state (record { kind = moving; place = place; span = span })
      (λ b. overlaps b.place place) errors
      (record {
        file = file;
        message = "cannot move `" +++ render place cfg.locals +++ "` while it is borrowed";
        span = span;
      })
      (λ b. exclusive-Conflict moving place span b refl) (λ b. refl)

pub check_read_shared-Finds :
    (place : Place) (state : BorrowSet) (span : Span) (errors : List Error) (cfg : Cfg)
    (file : String)
    → Finds cfg file state
        (One reading place span)
        errors
        (check_read_shared place state span errors cfg file)
unfolding check_read_shared
check_read_shared-Finds place state span errors cfg file =
    first_conflict-Finds cfg file state (record { kind = reading; place = place; span = span })
      (λ b. b.mutable && overlaps b.place place) errors
      (record {
        file = file;
        message = "cannot use `" +++ render place cfg.locals +++ "` because it is mutably borrowed";
        span = span;
      })
      (λ b. shared-Conflict reading place span b refl) (λ b. refl)

-- The kind of access that a new loan is.
abbrev pub lending : Bool → AccessKind
lending true = reserving
lending false = sharing

exclusive-lending : (m : Bool) → exclusive (lending m) ≡ m
exclusive-lending true = refl
exclusive-lending false = refl

-- A report behind two tests.
two_tests :
    (c d : Bool) (Clash : Type 0) (Good : Error → Type 0) (errors : List Error) (e : Error)
    → (((c ≡ true) × (d ≡ true)) ↔ Clash)
    → (Clash → Good e)
    → Reports (Clash → ⊥) Good errors (if c then if d then push errors e else errors else errors)
two_tests true true Clash Good errors e both good =
    let clash = both.0 (refl, refl) in
    Reports-one (Clash → ⊥) Good errors e (λ n. n clash) (good clash)
two_tests true false Clash Good errors e both good =
    Reports-nothing (Clash → ⊥) Good errors (λ k. let q = (both.1 k).1 in absurd (cc))
two_tests false d Clash Good errors e both good =
    Reports-nothing (Clash → ⊥) Good errors (λ k. let q = (both.1 k).0 in absurd (cc))

message_lem :
    (m old : Bool) (place : String)
    → conflict_message m old ("`" +++ place +++ "`") ≡ complaint (lending m) old place
message_lem true true place = refl
message_lem true false place = refl
message_lem false old place = refl

module _ (new_mutable : Bool) (place : Place) (span : Span) (cfg : Cfg) (file : String)
    (state : BorrowSet) where
  abbrev rendered : String
  rendered = "`" +++ render place cfg.locals +++ "`"

  abbrev access : Access
  access = record { kind = lending new_mutable; place = place; span = span }

  -- One round of check_borrow.
  against-Reports :
      (errors : List Error) (b : ActiveBorrow)
      → Memᴰ b state.borrows
      → Reports
          (Conflict access b → ⊥)
          (Blames cfg file state (One (lending new_mutable) place span))
          errors
          (against new_mutable place rendered span file errors b)
  against-Reports errors b m =
      let o = overlaps-Prefix b.place place in
      let e = exclusive-lending new_mutable in
      two_tests (overlaps b.place place) (new_mutable || b.mutable) (Conflict access b)
        (Blames cfg file state (One (lending new_mutable) place span)) errors
        (record {
          file = file;
          message = conflict_message new_mutable b.mutable rendered;
          span = span;
        })
        (λ h. (o.0 h.0, rw e h.1), λ h. (o.1 h.0, subst (λ x. (x || b.mutable) ≡ true) e h.1))
        (λ c. (
          access,
          b,
          refl,
          m,
          c,
          ap (λ t. record { file = file; message = t; span = span })
              (message_lem new_mutable b.mutable (render place cfg.locals)),
        ))

  loans-Reports :
      (bs : List ActiveBorrow) (errors : List Error)
      → ((b : ActiveBorrow) → Memᴰ b bs → Memᴰ b state.borrows)
      → Reports
          ((b : ActiveBorrow) → Memᴰ b bs → Conflict access b → ⊥)
          (Blames cfg file state (One (lending new_mutable) place span))
          errors
          (for_each (against new_mutable place rendered span file) errors bs)
  unfolding for_each
  loans-Reports [] errors inside =
      Reports-nothing ((b : ActiveBorrow) → Memᴰ b [] → Conflict access b → ⊥)
        (Blames cfg file state (One (lending new_mutable) place span)) errors
        (λ b m. absurd (Memᴰ.not-nil m))
  loans-Reports (b ∷ bs) errors inside =
      let Good : Error → Type 0 = Blames cfg file state (One (lending new_mutable) place span) in
      Reports-then (Conflict access b → ⊥) ((c : ActiveBorrow) → Memᴰ c bs → Conflict access c → ⊥)
        ((c : ActiveBorrow) → Memᴰ c (b ∷ bs) → Conflict access c → ⊥) Good Good Good errors
        (against new_mutable place rendered span file errors b)
        (for_each (against new_mutable place rendered span file)
          (against new_mutable place rendered span file errors b) bs)
        (against-Reports errors b (inside b (Memᴰ.head refl)))
        (loans-Reports bs (against new_mutable place rendered span file errors b)
          (λ c m. inside c (Memᴰ.tail m)))
        (
          λ h. (h b (Memᴰ.head refl), λ c m. h c (Memᴰ.tail m)),
          λ h c m.
              ⊎_elim (λ e k. h.0 (subst (λ x. Conflict access x) e k)) (λ t. h.1 c t)
                (Memᴰ.cases_cons m),
        )
        (λ x g. g) (λ x g. g)

pub check_borrow-Finds :
    (new_mutable : Bool) (place : Place) (state : BorrowSet) (span : Span) (errors : List Error)
    (cfg : Cfg) (file : String)
    → Finds cfg file state
        (One (lending new_mutable) place span)
        errors
        (check_borrow new_mutable place state span errors cfg file)
unfolding check_borrow
check_borrow-Finds new_mutable place state span errors cfg file =
    let loan : Access = record { kind = lending new_mutable; place = place; span = span } in
    let found =
      loans-Reports new_mutable place span cfg file state state.borrows errors (λ b m. m) in
    record {
      news = found.news;
      split = found.split;
      clear = (
        λ e a same b m c. found.clear.0 e b m (subst (λ x. Conflict x b) same c),
        λ h. found.clear.1 (λ b m c. h loan refl b m c),
      );
      good = found.good;
    }
