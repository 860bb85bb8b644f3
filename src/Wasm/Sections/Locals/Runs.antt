-- ===== src/Wasm/Sections/Locals/Runs.antt =====
-- The declared locals are read back from the runs that `encode_locals` writes.
use pocket_rust.Prelude.{
  ℕ, zero, suc, ◌+◌, ◌^◌, ◌<◌, ◌≤◌, ◌≡◌, refl, sym, ap, ◌∙◌, List, [], ◌∷◌, ◌++◌, length, drop,
  push, replicate, for_each, as_u32, All, append-nil, append_assoc, arith,
}
use mathlib.Core.Path.{subst}
use pocket_rust.Wasm.Leb.{write_uleb128}
use pocket_rust.Wasm.Leb.Unsigned.{read_u, write_uleb128-append}
use pocket_rust.Wasm.Types.{ValType, i32, i64, val_type_eq}
use pocket_rust.Wasm.Instr.{val_type_byte}
use pocket_rust.Wasm.Instr.Decode.{read_val_type}
use pocket_rust.Wasm.Instr.RoundTrip.{Reads-val_type}
use pocket_rust.Wasm.Reader.{Reader, ◌>>=◌, pure, read_vec, Reads, Appends}
use pocket_rust.Wasm.Reader.Laws.{
  Reads-bind, Reads-pure, Reads-u32, Reads-of_eq, Reads-read_vec, Appends-encode_vec, encode_vec,
}
use pocket_rust.Wasm.Sections.Locals.{count_groups, run_length, group_loop, encode_locals}

-- The runs, each with its count.
groups : ℕ → List ValType → List (ℕ × ValType)
unfolding run_length val_type_eq
groups rounds [] = []
groups zero (t ∷ ts) = []
groups (suc rounds) (t ∷ ts) =
    (suc (run_length t ts), t) ∷ groups rounds (drop (run_length t ts) ts)

abbrev expand : List (ℕ × ValType) → List ValType
expand [] = []
expand ((n, t) ∷ gs) = replicate n t ++ expand gs

run-append-drop :
    (t : ValType) (ts : List ValType)
    → replicate (run_length t ts) t ++ drop (run_length t ts) ts ≡ ts
unfolding run_length val_type_eq
run-append-drop t [] = refl
run-append-drop i32 (i32 ∷ ts) = ap (λ xs. i32 ∷ xs) (run-append-drop i32 ts)
run-append-drop i32 (i64 ∷ ts) = refl
run-append-drop i64 (i32 ∷ ts) = refl
run-append-drop i64 (i64 ∷ ts) = ap (λ xs. i64 ∷ xs) (run-append-drop i64 ts)

run_length-le : (t : ValType) (ts : List ValType) → run_length t ts ≤ length ts
unfolding run_length
run_length-le t [] = omega arith
run_length-le t (u ∷ ts) = ground (arith, run_length-le t ts)

length-drop-le : (n : ℕ) (ts : List ValType) → length (drop n ts) ≤ length ts
length-drop-le zero ts = omega arith
length-drop-le (suc n) [] = omega arith
length-drop-le (suc n) (t ∷ ts) = omega (arith, length-drop-le n ts)

expand-groups : (k : ℕ) (ts : List ValType) → length ts ≤ k → expand (groups k ts) ≡ ts
unfolding groups
expand-groups k [] h = refl
expand-groups zero (t ∷ ts) h = absurd (omega arith)
expand-groups (suc k) (t ∷ ts) h =
    ap (λ xs. t ∷ (replicate (run_length t ts) t ++ xs))
      (expand-groups k (drop (run_length t ts) ts)
        (omega (arith, length-drop-le (run_length t ts) ts)))
    ∙ ap (λ xs. t ∷ xs) (run-append-drop t ts)

-- The first loop counts the runs that the second one writes.
count_groups-length :
    (k acc : ℕ) (t : ValType) (ts : List ValType)
    → length ts ≤ k
    → count_groups acc t ts ≡ acc + length (groups k (drop (run_length t ts) ts))
unfolding count_groups groups
count_groups-length k acc t [] h = omega arith
count_groups-length k acc i32 (i32 ∷ ts) h = count_groups-length k acc i32 ts (omega arith)
count_groups-length k acc i64 (i64 ∷ ts) h = count_groups-length k acc i64 ts (omega arith)
count_groups-length zero acc i32 (i64 ∷ ts) h = absurd (omega arith)
count_groups-length (suc k) acc i32 (i64 ∷ ts) h =
    omega (arith, count_groups-length k (acc + 1) i64 ts (omega arith))
count_groups-length zero acc i64 (i32 ∷ ts) h = absurd (omega arith)
count_groups-length (suc k) acc i64 (i32 ∷ ts) h =
    omega (arith, count_groups-length k (acc + 1) i32 ts (omega arith))

write_group : List ℕ → ℕ × ValType → List ℕ
write_group out (n, t) = push (write_uleb128 out (as_u32 n)) (val_type_byte t)

Appends-write_group : Appends write_group
unfolding write_group
Appends-write_group = record {
  appends = λ out (n, t).
      ap (λ bs. push bs (val_type_byte t)) (write_uleb128-append out (as_u32 n))
      ∙ append_assoc out _ _;
}

group_loop-for_each :
    (k : ℕ) (out : List ℕ) (ts : List ValType)
    → group_loop k out ts ≡ for_each write_group out (groups k ts)
unfolding group_loop groups for_each write_group
group_loop-for_each k out [] = refl
group_loop-for_each zero out (t ∷ ts) = refl
group_loop-for_each (suc k) out (t ∷ ts) = group_loop-for_each k _ (drop (run_length t ts) ts)

length-groups-le : (k : ℕ) (ts : List ValType) → length (groups k ts) ≤ length ts
unfolding groups
length-groups-le k [] = omega arith
length-groups-le zero (t ∷ ts) = omega arith
length-groups-le (suc k) (t ∷ ts) =
    omega
      (arith, length-groups-le k (drop (run_length t ts) ts), length-drop-le (run_length t ts) ts)

count_groups-groups :
    (t : ValType) (ts : List ValType)
    → suc (length ts) < 2 ^ 32
    → count_groups 1 t ts ≡ as_u32 (length (groups (suc (length ts)) (t ∷ ts)))
count_groups-groups t ts h =
    let count = count_groups-length (length ts) 1 t ts (omega arith) in
    let few = length-groups-le (suc (length ts)) (t ∷ ts) in
    let e : length (groups (suc (length ts)) (t ∷ ts))
        ≡ suc (length (groups (length ts) (drop (run_length t ts) ts))) =
      unfold groups in refl in
    omega (arith, count, few, e)

-- `encode_locals` writes the vector of the runs.
encode_locals-groups :
    (out : List ℕ) (ts : List ValType)
    → length ts < 2 ^ 32
    → encode_locals out ts ≡ encode_vec write_group Appends-write_group out (groups (length ts) ts)
encode_locals-groups out [] h = unfold encode_locals groups for_each in refl
encode_locals-groups out (t ∷ ts) h =
    let loop =
      group_loop-for_each (suc (length ts)) (write_uleb128 out (count_groups 1 t ts)) (t ∷ ts) in
    unfold encode_locals in
    loop
    ∙ ap (λ n. for_each write_group (write_uleb128 out n) (groups (suc (length ts)) (t ∷ ts)))
        (count_groups-groups t ts h)

pub encode_locals-append :
    (out : List ℕ) (ts : List ValType)
    → length ts < 2 ^ 32
    → encode_locals out ts ≡ out ++ encode_locals [] ts
encode_locals-append out ts h =
    encode_locals-groups out ts h
    ∙ (Appends-encode_vec write_group Appends-write_group).appends out _
    ∙ ap (λ bs. out ++ bs) (sym (encode_locals-groups [] ts h))

unfoldable pub read_group : Reader (ℕ × ValType)
unfolding ◌>>=◌ pure
read_group = do n ← read_u 32; t ← read_val_type; pure (n, t)

unfoldable pub read_locals : Reader (List ValType)
unfolding read_group read_vec
read_locals = do gs ← read_vec read_group; pure (expand gs)

Reads-read_group :
    (n : ℕ) (t : ValType) → n < 2 ^ 32 → Reads read_group (write_group [] (n, t)) (n, t)
unfolding read_group write_group
Reads-read_group n t h =
    let e : as_u32 n ≡ n = omega arith in
    Reads-of_eq (ap (λ m. push (write_uleb128 [] m) (val_type_byte t)) e) (
      Reads-bind _ (Reads-u32 n h)
        (Reads-bind (λ t'. pure (n, t')) (Reads-val_type t) (Reads-pure (n, t))))

All-Reads-groups :
    (k : ℕ) (ts : List ValType)
    → length ts < 2 ^ 32
    → All (λ g. Reads read_group (write_group [] g) g) (groups k ts)
unfolding groups
All-Reads-groups k [] h = tt
All-Reads-groups zero (t ∷ ts) h = tt
All-Reads-groups (suc k) (t ∷ ts) h = (
  Reads-read_group (suc (run_length t ts)) t (omega (arith, run_length-le t ts)),
  All-Reads-groups k (drop (run_length t ts) ts)
      (omega (arith, length-drop-le (run_length t ts) ts)),
)

-- The locals of a function body are read back: no run is lost, merged with the next or miscounted.
pub Reads-read_locals :
    (ts : List ValType) → length ts < 2 ^ 32 → Reads read_locals (encode_locals [] ts) ts
unfolding read_locals
Reads-read_locals ts h =
    let gs = groups (length ts) ts in
    let vec =
      Reads-read_vec write_group Appends-write_group read_group gs
        (omega (arith, length-groups-le (length ts) ts)) (All-Reads-groups (length ts) ts h) in
    Reads-of_eq (encode_locals-groups [] ts h ∙ sym (append-nil _)) (
      Reads-bind (λ gs'. pure (expand gs')) vec
        (let e = expand-groups (length ts) ts (omega arith) in
          subst (λ x. Reads (pure (expand gs)) [] x) e (Reads-pure (expand gs))))
