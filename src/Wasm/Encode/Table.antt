-- ===== src/Wasm/Encode/Table.antt =====
-- The function table of `Module::intern_table_slot`: one slot for each function, never moved.
use pocket_rust.Prelude.{
  ℕ, zero, suc, ◌+◌, ◌^◌, ◌<◌, ◌≤◌, ◌≡◌, ◌≢◌, refl, sym, ap, ◌∙◌, inl, inr, List, [], ◌∷◌, ◌++◌,
  length, length-append, push, get_elem?, as_u32, All, none, some, ◌==◌, Option-cases, Bool-cases,
  ==_iff, arith,
}
use mathlib.Core.Path.{subst}
use pocket_rust.Wasm.Types.{Module}
use pocket_rust.Wasm.Encode.{find_slot, intern_table_slot}

find_slot-some :
    (table : List ℕ) (f i j : ℕ)
    → find_slot table f i ≡ some j
    → (k : ℕ) × (j ≡ i + k) × (get_elem? table k ≡ some f) × (k < length table)
unfolding find_slot
find_slot-some [] f i j h = cc
find_slot-some (x ∷ table) f i j h = elim (Bool-cases (x == f)) [
  | inl same ↦ (0, ground arith, ap some ((==_iff x f).0 same), omega arith)
  | inr other ↦
      let (k, e, at, lt) = find_slot-some table f (i + 1) j (ground arith) in
      (suc k, omega arith, at, omega arith)
]

-- No entry of the table is `f`.
abbrev Absent : ℕ → List ℕ → Type 0
Absent f table = All (λ x. x ≢ f) table

find_slot-none : (table : List ℕ) (f i : ℕ) → find_slot table f i ≡ none → Absent f table
unfolding find_slot
find_slot-none [] f i h = tt
find_slot-none (x ∷ table) f i h = ground (arith, find_slot-none table f (i + 1))

-- No function stands in two slots.
abbrev pub IsDistinct : List ℕ → Type 0
IsDistinct [] = Unit
IsDistinct (x ∷ table) = Absent x table × IsDistinct table

Absent-push : (x f : ℕ) (table : List ℕ) → x ≢ f → Absent x table → Absent x (push table f)
Absent-push x f [] ne h = ((λ e. ne (sym e)), tt)
Absent-push x f (y ∷ table) ne h = (h.0, Absent-push x f table ne h.1)

IsDistinct-push :
    (f : ℕ) (table : List ℕ) → Absent f table → IsDistinct table → IsDistinct (push table f)
IsDistinct-push f [] h d = (tt, tt)
IsDistinct-push f (x ∷ table) h d = (Absent-push x f table h.0 d.0, IsDistinct-push f table h.1 d.1)

get_elem?-push : (table : List ℕ) (f : ℕ) → get_elem? (push table f) (length table) ≡ some f
get_elem?-push [] f = refl
get_elem?-push (x ∷ table) f = get_elem?-push table f

get_elem?-append :
    (table more : List ℕ) (k f : ℕ)
    → get_elem? table k ≡ some f
    → get_elem? (table ++ more) k ≡ some f
get_elem?-append [] more k f h = cc
get_elem?-append (x ∷ table) more zero f h = h
get_elem?-append (x ∷ table) more (suc k) f h = get_elem?-append table more k f h

-- What a call of `intern_table_slot` promises: the returned slot holds the function, every slot
-- that was given out keeps its function, no function takes two slots, and at most one slot is added.
pub record Interned (m : Module) (f : ℕ) (m' : Module) (slot : ℕ) : Type 0 where
  pub holds : get_elem? m'.func_table slot ≡ some f
  pub keeps : (k g : ℕ) → get_elem? m.func_table k ≡ some g → get_elem? m'.func_table k ≡ some g
  pub distinct : IsDistinct m.func_table → IsDistinct m'.func_table
  pub grows : length m'.func_table ≤ length m.func_table + 1

intern_found :
    (m : Module) (f j : ℕ)
    → find_slot m.func_table f 0 ≡ some j
    → intern_table_slot m f ≡ (m, as_u32 j)
unfolding intern_table_slot
intern_found m f j e = rw (e, intern_table_slot)

abbrev with_slot : Module → ℕ → Module
with_slot m f = record m { func_table = push m.func_table f }

intern_absent :
    (m : Module) (f : ℕ)
    → find_slot m.func_table f 0 ≡ none
    → intern_table_slot m f ≡ (with_slot m f, as_u32 (length m.func_table))
unfolding intern_table_slot
intern_absent m f e = rw (e, intern_table_slot)

Interned-found :
    (m : Module) (f j : ℕ)
    → length m.func_table < 2 ^ 32
    → find_slot m.func_table f 0 ≡ some j
    → Interned m f m (as_u32 j)
Interned-found m f j h e =
    let (k, same, at, lt) = find_slot-some m.func_table f 0 j e in
    let slot : k ≡ as_u32 j = omega arith in
    record {
      holds = subst (λ i. get_elem? m.func_table i ≡ some f) slot at;
      keeps = λ i g p. p;
      distinct = λ d. d;
      grows = omega arith;
    }

Interned-absent :
    (m : Module) (f : ℕ)
    → length m.func_table < 2 ^ 32
    → find_slot m.func_table f 0 ≡ none
    → Interned m f (with_slot m f) (as_u32 (length m.func_table))
Interned-absent m f h e =
    let slot : length m.func_table ≡ as_u32 (length m.func_table) = omega arith in
    record {
      holds =
          subst (λ i. get_elem? (push m.func_table f) i ≡ some f) slot
            (get_elem?-push m.func_table f);
      keeps = λ i g p. get_elem?-append m.func_table (f ∷ []) i g p;
      distinct = λ d. IsDistinct-push f m.func_table (find_slot-none m.func_table f 0 e) d;
      grows = omega (arith, length-append m.func_table (f ∷ []));
    }

-- With fewer than 2 ^ 32 slots in use, `intern_table_slot` returns a slot that holds the function,
-- leaves the function of every other slot, keeps the slots distinct and adds one slot at most.
pub intern_table_slot-Interned :
    (m : Module) (f : ℕ)
    → length m.func_table < 2 ^ 32
    → Interned m f (intern_table_slot m f).0 (intern_table_slot m f).1
intern_table_slot-Interned m f h = elim (Option-cases (find_slot m.func_table f 0)) [
  | inl absent ↦ rw (intern_absent m f absent) (Interned-absent m f h absent)
  | inr (j, found) ↦ rw (intern_found m f j found) (Interned-found m f j h found)
]

find_slot-push :
    (table : List ℕ) (f i : ℕ)
    → find_slot table f i ≡ none
    → find_slot (push table f) f i ≡ some (i + length table)
unfolding find_slot
find_slot-push [] f i h = ground arith
find_slot-push (x ∷ table) f i h = ground (arith, find_slot-push table f (i + 1))

-- A second call for the same function returns the slot of the first, and changes nothing.
pub intern_table_slot_twice :
    (m : Module) (f : ℕ) → intern_table_slot (intern_table_slot m f).0 f ≡ intern_table_slot m f
intern_table_slot_twice m f = elim (Option-cases (find_slot m.func_table f 0)) [
  | inl absent ↦ rw (intern_absent m f absent) (
      intern_found (with_slot m f) f (length m.func_table)
        (find_slot-push m.func_table f 0 absent ∙ ap some (omega arith)))
  | inr (j, found) ↦ rw (intern_found m f j found) (intern_found m f j found)
]
