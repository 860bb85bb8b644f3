-- ===== src/Typeck/Lifetimes/Elision/Source.antt =====
-- Where an elided return lifetime comes from.
use pocket_rust.Prelude.{
  ◌≡◌, ◌≢◌, ◌⊎◌, inl, inr, refl, ◌+◌, ◌<◌, ℕ, zero, suc, Bool, true, false, not, ◌&&◌, Option, none,
  some, Result, ok, err, List, [], ◌∷◌, length, get_elem?, String, Bool-cases, arith,
}
use mathlib.Core.Option
use native.Mathlib.Decide.{ℕ_discrete}
use mathlib.Core.Path.{subst, sym}
use mathlib.Core.Logic.{⊎_elim}
use pocket_rust.Span.{Span, Error}
use pocket_rust.Typeck.Types.{RType}
use pocket_rust.Typeck.Lifetimes.Elision.{
  as_ref, ref_at, elision_error, downgrade, from_param, count_refs, too_many, only_ref, from_self,
  elide_without_self, find_elision_source,
}
use pocket_rust.Typeck.Lifetimes.Elision.Refs.{
  refs, Only, Only-refs, one_ref, count_refs-refs, source_of,
}

-- The parameter `i` gives the lifetime: it is the receiver and a reference, or the receiver is no
-- reference and it is the only one. It is mutable or not as `m` says.
pub record Source (params : List RType) (self_idx : Option ℕ) (i : ℕ) (m : Bool) : Type 0 where
  pub is_ref : ref_at params i ≡ some m
  pub first :
      (self_idx ≡ some i)
      ⊎ ((j : ℕ) → self_idx ≡ some j → ref_at params j ≡ none)
        × ((j : ℕ) (m' : Bool) → ref_at params j ≡ some m' → j ≡ i)

-- The answer is the source, unless `&mut` is returned from `&`, and an error without one.
abbrev pub Elides : List RType → Option ℕ → Bool → Span → Option (Result ℕ Error) → Type 0
Elides params self_idx ret_mutable span answer =
    ((i : ℕ) × (m : Bool) × Source params self_idx i m
      × (ret_mutable && not m ≡ false)
      × (answer ≡ some (ok i)))
    ⊎ (e : Error) × (answer ≡ some (err e))
      × (e.span ≡ span)
      × ((i : ℕ) (m : Bool) → Source params self_idx i m → (ret_mutable && not m ≡ true))

module _ (params : List RType) (self_idx : Option ℕ) (ret_mutable : Bool) (span : Span)
    (file : String) where
  abbrev Answers : Option (Result ℕ Error) → Type 0
  Answers answer = Elides params self_idx ret_mutable span answer

  downgrade-Elides :
      (i : ℕ) (m : Bool) (message : String)
      → Source params self_idx i m
      → ((j : ℕ) (m' : Bool) → Source params self_idx j m' → m' ≡ m)
      → Answers (some (downgrade i ret_mutable m message span file))
  unfolding downgrade elision_error
  downgrade-Elides i m message source same =
      ⊎_elim
        (λ e.
          let error : Error = record { file = file; message = message; span = span } in
          inr (error, rw e refl, refl, λ j m' s. rw (same j m' s) e))
        (λ e. inl (i, m, source, e, rw e refl)) (Bool-cases (ret_mutable && not m))

  -- The receiver is no reference.
  module _ (no_self : (j : ℕ) → self_idx ≡ some j → ref_at params j ≡ none) where
    Only-Source : (i : ℕ) (m : Bool) → Only params i m → Source params self_idx i m
    Only-Source i m only = record { is_ref = only.0; first = inr (no_self, only.1) }

    Source-Only : (i : ℕ) (m : Bool) → Source params self_idx i m → Only params i m
    Source-Only i m source = (
      source.is_ref,
      ⊎_elim (λ e. let n = no_self i e in let r = source.is_ref in absurd (cc)) (λ p. p.1)
          source.first,
    )

    Only-same : (i j : ℕ) (m m' : Bool) → Only params i m → Only params j m' → m' ≡ m
    Only-same i j m m' only only' =
        let e : j ≡ i = only.1 j m' (only'.0) in
        let r : ref_at params i ≡ some m' = subst (λ k. ref_at params k ≡ some m') e only'.0 in
        let q = only.0 in cc

    one-Elides :
        (i : ℕ) (m : Bool)
        → Only params i m
        → Answers (only_ref params (some i, 1) ret_mutable span file)
    unfolding only_ref from_param
    one-Elides i m only =
        let message : String = "cannot return `&mut` from a `&` parameter" in
        subst (λ o. Answers (from_param o i ret_mutable span file)) (sym (only.0))
          (downgrade-Elides i m message (Only-Source i m only)
            (λ j m' s. Only-same i j m m' only (Source-Only j m' s)))

    counted :
        (source : Option ℕ) (count : ℕ)
        → count ≢ 1
        → only_ref params (source, count) ret_mutable span file ≡ some (too_many count span file)
    unfolding only_ref
    counted none count c = ground arith
    counted (some i) count c = ground arith

    other-Elides :
        (source : Option ℕ) (count : ℕ)
        → count ≢ 1
        → refs params ≢ 1
        → Answers (only_ref params (source, count) ret_mutable span file)
    unfolding too_many elision_error
    other-Elides source count c d = inr (
      _,
      counted source count c,
      refl,
      λ i m s. absurd (d (Only-refs params i m (Source-Only i m s))),
    )

    elide_without_self-Elides : Answers (elide_without_self params ret_mutable span file)
    unfolding elide_without_self
    elide_without_self-Elides =
        let count = count_refs-refs params 0 none 0 in
        let source = source_of 0 params (none, 0) in
        elim (ℕ_discrete (refs params) 1) [
          | yes e ↦
              let (i, m, only, f) = one_ref params 0 (none, 0) e in
              let c : (count_refs 0 params (none, 0)).1 ≡ 1 = omega arith in
              let z : 0 + i ≡ i = omega arith in
              let f' : source ≡ some i = subst (λ k. source ≡ some k) z f in
              subst
                (λ s.
                  Answers
                    (only_ref params (s, (count_refs 0 params (none, 0)).1) ret_mutable span file))
                (sym f')
                (subst (λ n. Answers (only_ref params (some i, n) ret_mutable span file)) (sym c)
                  (one-Elides i m only))
          | no n ↦ other-Elides source (count_refs 0 params (none, 0)).1 (λ c. n (omega arith)) n
        ]

  self-Elides :
      (idx : ℕ) (o : Option Bool)
      → self_idx ≡ some idx
      → ref_at params idx ≡ o
      → Answers (from_self (some o) params idx ret_mutable span file)
  unfolding from_self
  self-Elides idx none e r =
      elide_without_self-Elides
        (λ j f. let q : idx ≡ j = cc in subst (λ k. ref_at params k ≡ none) q r)
  self-Elides idx (some m) e r =
      downgrade-Elides idx m "cannot return `&mut` from a `&self` receiver"
        (record { is_ref = r; first = inl e })
        (λ j m' s.
          ⊎_elim
            (λ f.
              let q : j ≡ idx = cc in
              let r' : ref_at params idx ≡ some m' =
                subst (λ k. ref_at params k ≡ some m') q s.is_ref in
              cc)
            (λ p. let n = p.0 idx e in absurd (cc)) s.first)

get_elem?-ref_at :
    (params : List RType) (i : ℕ)
    → i < length params
    → Option.map as_ref (get_elem? params i) ≡ some (ref_at params i)
unfolding ref_at
get_elem?-ref_at [] i h = absurd (omega arith)
get_elem?-ref_at (t ∷ ts) zero h = refl
get_elem?-ref_at (t ∷ ts) (suc i) h = get_elem?-ref_at ts i (omega arith)

-- find_elision_source, for a receiver that is one of the parameters, answers with the parameter whose
-- lifetime the return type takes: the receiver where it is a reference, else the only reference. It is
-- an error exactly where there is no such parameter, or where it is `&` and `&mut` is returned.
pub find_elision_source-Elides :
    (params : List RType) (self_idx : Option ℕ) (ret_mutable : Bool) (span : Span) (file : String)
    → ((i : ℕ) → self_idx ≡ some i → i < length params)
    → Elides params self_idx ret_mutable span
        (find_elision_source params self_idx ret_mutable span file)
unfolding find_elision_source
find_elision_source-Elides params none ret_mutable span file h =
    elide_without_self-Elides params none ret_mutable span file (λ j e. absurd (cc))
find_elision_source-Elides params (some i) ret_mutable span file h =
    subst
      (λ o. Elides params (some i) ret_mutable span (from_self o params i ret_mutable span file))
      (sym (get_elem?-ref_at params i (h i refl)))
      (self-Elides params (some i) ret_mutable span file i (ref_at params i) refl refl)
