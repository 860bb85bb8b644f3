-- ===== src/Typeck/Lifetimes/Declared/Scope.antt =====
-- validate_named_lifetimes decides whether every name outside trait bounds is declared.
use pocket_rust.Prelude.{
  ◌≡◌, ◌↔◌, ◌⊎◌, inl, inr, refl, ◌||◌, true, any, List, [], ◌∷◌, String, string_eq, ◌+++◌,
  if◌then◌else◌, Bool-cases,
}
use mathlib.Core.Path.{subst, sym}
use mathlib.Core.Logic.{⊎_elim}
use mathlib.Core.List.{Memᴰ}
use mathlib.Core.List.Memᴰ
use text.Mathlib.TextEquality
use pocket_rust.Span.{Span, Error}
use pocket_rust.Typeck.Types.{
  LifetimeRepr, named, inferred, RType, int, struct, ref, raw_ptr, param, bool, tuple, enum, slice,
  str, char, never, assoc_proj, opaque, fn_ptr, dyn, RTypes, no_types, and_type,
}
use pocket_rust.Typeck.Lifetimes.Slots.{slots, slots_types}
use pocket_rust.Typeck.Lifetimes.Declared.Decides.{Decides, Decides-also}
use pocket_rust.Typeck.Lifetimes.Declared.{
  Checked, lifetime_in_scope, check_named_in_scope, check_args_in_scope, validate_named_lifetimes,
  validate_types,
}

-- The lifetime is elided, `static` or one of the parameters.
abbrev pub IsDeclared : List String → LifetimeRepr → Type 0
IsDeclared params (named name) = (name ≡ "static") ⊎ Memᴰ name params
IsDeclared params (inferred id) = Unit

-- The error names a lifetime that is not declared.
abbrev pub Undeclared : List String → Span → String → LifetimeRepr → Error → Type 0
Undeclared params span file lt e =
    (IsDeclared params lt → ⊥)
    × (name : String) × (lt ≡ named name)
    × (e ≡ record { file = file; message = "undeclared lifetime `'" +++ name +++ "`"; span = span })

any-Memᴰ :
    (name : String) (params : List String)
    → any (λ param. string_eq param name) params ≡ true
    → Memᴰ name params
any-Memᴰ name [] h = absurd (cc)
any-Memᴰ name (p ∷ ps) h =
    ⊎_elim (λ e. Memᴰ.head (sym ((TextEquality.eq_iff p name).0 e)))
      (λ e. Memᴰ.tail (
        any-Memᴰ name ps
          (subst (λ b. (if b then true else any (λ param. string_eq param name) ps) ≡ true) e h)))
      (Bool-cases (string_eq p name))

Memᴰ-any :
    (name : String) (params : List String)
    → Memᴰ name params
    → any (λ param. string_eq param name) params ≡ true
Memᴰ-any name [] m = absurd (Memᴰ.not-nil m)
Memᴰ-any name (p ∷ ps) m =
    ⊎_elim (λ e. rw e refl)
      (λ e. rw e (
        ⊎_elim (λ q. let t = (TextEquality.eq_iff p name).1 (sym q) in absurd (cc))
          (λ k. Memᴰ-any name ps k) (Memᴰ.cases_cons m)))
      (Bool-cases (string_eq p name))

lifetime_in_scope-IsDeclared :
    (name : String) (params : List String)
    → (lifetime_in_scope name params ≡ true) ↔ IsDeclared params (named name)
unfolding lifetime_in_scope
lifetime_in_scope-IsDeclared name params = (
  λ h.
      ⊎_elim (λ e. inl ((TextEquality.eq_iff name "static").0 e))
        (λ e. inr (
          any-Memᴰ name params
            (subst (λ b. (b || any (λ param. string_eq param name) params) ≡ true) e h)))
        (Bool-cases (string_eq name "static")),
  ⊎_elim (λ e. rw ((TextEquality.eq_iff name "static").1 e) refl)
      (λ m.
        ⊎_elim (λ f. rw f refl) (λ f. rw f (Memᴰ-any name params m))
          (Bool-cases (string_eq name "static"))),
)

module _ (params : List String) (span : Span) (file : String) where
  abbrev Good : LifetimeRepr → Type 0
  Good lt = IsDeclared params lt

  abbrev Bad : LifetimeRepr → Error → Type 0
  Bad lt e = Undeclared params span file lt e

  abbrev Verdict : Checked → List LifetimeRepr → Type 0
  Verdict r lts = Decides Good Bad r lts

  one : (lt : LifetimeRepr) → Verdict (check_named_in_scope lt params span file) (lt ∷ [])
  unfolding check_named_in_scope
  one (named name) =
      let scope = lifetime_in_scope-IsDeclared name params in
      ⊎_elim (λ e. inl (rw e refl, (scope.0 e, tt)))
        (λ e. inr (
          named name,
          _,
          Memᴰ.head refl,
          (λ d. let t = scope.1 d in absurd (cc), name, refl, refl),
          rw e refl,
        ))
        (Bool-cases (lifetime_in_scope name params))
  one (inferred id) = inl (refl, (tt, tt))

  args : (lts : List LifetimeRepr) → Verdict (check_args_in_scope lts params span file) lts
  unfolding check_args_in_scope
  args [] = inl (refl, tt)
  args (lt ∷ lts) = Decides-also Good Bad _ _ (lt ∷ []) lts (one lt) (args lts)

  mutual
    unfolding validate_named_lifetimes validate_types slots slots_types

    all_declared : (rt : RType) → Verdict (validate_named_lifetimes rt params span file) (slots rt)
    all_declared (ref inner mutable lifetime) =
        Decides-also Good Bad _ _ (lifetime ∷ []) (slots inner) (one lifetime) (all_declared inner)
    all_declared (raw_ptr inner mutable) = all_declared inner
    all_declared (struct path type_args lifetime_args) =
        Decides-also Good Bad _ _ lifetime_args (slots_types type_args) (args lifetime_args)
          (all_types_declared type_args)
    all_declared (tuple elems) = all_types_declared elems
    all_declared (enum path type_args lifetime_args) =
        Decides-also Good Bad _ _ lifetime_args (slots_types type_args) (args lifetime_args)
          (all_types_declared type_args)
    all_declared (slice inner) = all_declared inner
    all_declared (assoc_proj base trait_path name) = all_declared base
    all_declared (fn_ptr params ret) =
        Decides-also Good Bad _ _ (slots_types params) (slots ret) (all_types_declared params)
          (all_declared ret)
    all_declared (dyn _ lifetime) = one lifetime
    all_declared (int k) = inl (refl, tt)
    all_declared (param name) = inl (refl, tt)
    all_declared bool = inl (refl, tt)
    all_declared str = inl (refl, tt)
    all_declared char = inl (refl, tt)
    all_declared never = inl (refl, tt)
    all_declared (opaque fn_path slot) = inl (refl, tt)

    all_types_declared :
        (ts : RTypes) → Verdict (validate_types ts params span file) (slots_types ts)
    all_types_declared no_types = inl (refl, tt)
    all_types_declared (and_type t ts) =
        Decides-also Good Bad _ _ (slots t) (slots_types ts) (all_declared t)
          (all_types_declared ts)

-- validate_named_lifetimes passes when every lifetime of the type that has a name is `static` or one of the
-- parameters, those in the bounds of its trait objects aside, which it does not look at, and otherwise
-- reports one that is not, by its name.
pub validate_named_lifetimes-Decides :
    (rt : RType) (params : List String) (span : Span) (file : String)
    → Decides
        (IsDeclared params)
        (Undeclared params span file)
        (validate_named_lifetimes rt params span file)
        (slots rt)
validate_named_lifetimes-Decides rt params span file = all_declared params span file rt
