-- ===== src/Wasm/Reader/Laws.antt =====
-- How readers compose, and that a vector and a payload are read back.
use pocket_rust.Prelude.{
  ℕ, ◌^◌, ◌<◌, some, List, [], ◌∷◌, ◌++◌, ◌≡◌, refl, sym, ap, ◌∙◌, ◌⊎◌, length, push, for_each,
  as_u32, All, append-nil, append_assoc, arith,
}
use pocket_rust.Wasm.Leb.{write_uleb128}
use pocket_rust.Wasm.Leb.Unsigned.{read_u, read_u-write_uleb128, write_uleb128-append, IsU32}
use pocket_rust.Wasm.Reader.{
  Reader, ◌>>=◌, ◌>>◌, pure, read_byte, any_byte, read_times, read_vec, split_at, whole, read_sized,
  read_optional, Reads, Appends, Adds,
}

pub Reads-bind :
    {A B : Type 0} {m : Reader A} (f : A → Reader B) {bs cs : List ℕ} {x : A} {y : B}
    → Reads m bs x
    → Reads (f x) cs y
    → Reads (m >>= f) (bs ++ cs) y
unfolding ◌>>=◌
Reads-bind f {bs} {cs} h k = record {
  reads = λ rest. rw (append_assoc bs cs rest, h.reads (cs ++ rest), ◌>>=◌) (k.reads rest);
}

pub Reads-then :
    {A B : Type 0} {m : Reader A} {k : Reader B} {bs cs : List ℕ} {x : A} {y : B}
    → Reads m bs x
    → Reads k cs y
    → Reads (m >> k) (bs ++ cs) y
unfolding ◌>>◌
Reads-then h k = Reads-bind _ h k

pub Reads-pure : {A : Type 0} (x : A) → Reads (pure x) [] x
unfolding pure
Reads-pure x = record { reads = λ rest. refl }

pub Reads-read_byte : (c : ℕ) → Reads (read_byte c) (c ∷ []) tt
unfolding read_byte
Reads-read_byte c = record { reads = λ rest. ground arith }

pub Reads-u32 : (n : ℕ) → IsU32 n → Reads (read_u 32) (write_uleb128 [] n) n
Reads-u32 n h = record { reads = λ rest. read_u-write_uleb128 n rest h }

pub Reads-of_eq :
    {A : Type 0} {r : Reader A} {bs cs : List ℕ} {x : A} → cs ≡ bs → Reads r bs x → Reads r cs x
Reads-of_eq {r} {x} e h = rw e h

pub Appends-u32 : Appends write_uleb128
Appends-u32 = record { appends = write_uleb128-append }

pub Appends-push : Appends (push {A = ℕ})
Appends-push = record { appends = λ out x. refl }

module _ {A : Type 0} (w : List ℕ → A → List ℕ) (a : Appends w) where
  pub for_each-append : (out : List ℕ) (xs : List A) → for_each w out xs ≡ out ++ for_each w [] xs
  unfolding for_each
  for_each-append out [] = sym (append-nil out)
  for_each-append out (x ∷ xs) =
      for_each-append (w out x) xs
      ∙ ap (λ t. t ++ for_each w [] xs) (a.appends out x)
      ∙ append_assoc out (w [] x) (for_each w [] xs)
      ∙ ap (λ t. out ++ t) (sym (for_each-append (w [] x) xs))

  pub Appends-for_each : Appends (for_each w)
  Appends-for_each = record { appends = for_each-append }

  -- The count and then the items, as every section and every list in a section is written.
  abbrev pub encode_vec : List ℕ → List A → List ℕ
  encode_vec out xs = for_each w (write_uleb128 out (as_u32 (length xs))) xs

  pub Appends-encode_vec : Appends encode_vec
  Appends-encode_vec = record {
    appends = λ out xs.
        for_each-append _ xs
        ∙ ap (λ t. t ++ for_each w [] xs) (write_uleb128-append out _)
        ∙ append_assoc out _ _
        ∙ ap (λ t. out ++ t) (sym (for_each-append _ xs));
  }

  module _ (r : Reader A) where
    pub Reads-read_times :
        (xs : List A)
        → All (λ x. Reads r (w [] x) x) xs
        → Reads (read_times (length xs) r) (for_each w [] xs) xs
    unfolding read_times for_each
    Reads-read_times [] h = record { reads = λ rest. refl }
    Reads-read_times (x ∷ xs) h = record {
      reads = λ rest. rw (
        for_each-append (w [] x) xs,
        append_assoc (w [] x) (for_each w [] xs) rest,
        h.0.reads (for_each w [] xs ++ rest),
        (Reads-read_times xs h.1).reads rest,
      );
    }

    pub Reads-read_vec :
        (xs : List A)
        → length xs < 2 ^ 32
        → All (λ x. Reads r (w [] x) x) xs
        → Reads (read_vec r) (encode_vec [] xs) xs
    unfolding read_vec
    Reads-read_vec xs n h =
        let e : as_u32 (length xs) ≡ length xs = omega arith in
        Reads-of_eq (rw e (for_each-append (write_uleb128 [] (length xs)) xs))
          (Reads-bind (λ n. read_times n r) (Reads-u32 (length xs) n) (Reads-read_times xs h))

split_at-append :
    (front back : List ℕ) → split_at (length front) (front ++ back) ≡ some (front, back)
unfolding split_at
split_at-append [] back = refl
split_at-append (x ∷ front) back = rw (split_at-append front back)

module _ {A : Type 0} (r : Reader A) where
  -- A payload behind its size.
  pub Reads-read_sized :
      (payload : List ℕ) (x : A)
      → length payload < 2 ^ 32
      → Reads r payload x
      → Reads (read_sized r) (write_uleb128 [] (length payload) ++ payload) x
  unfolding read_sized ◌>>=◌
  Reads-read_sized payload x n h = record {
    reads = λ rest.
        rw
          (
            append_assoc (write_uleb128 [] (length payload)) payload rest,
            read_u-write_uleb128 (length payload) (payload ++ rest) n,
            split_at-append payload rest,
            ◌>>=◌,
          )
          (ap (whole rest) (ap r (sym (append-nil payload)) ∙ h.reads []));
  }

  -- A section that stands.
  pub read_optional_here :
      (id : ℕ) (default : A) (bytes : List ℕ) (x : A)
      → Reads (read_sized r) bytes x
      → Reads (read_optional id default r) (id ∷ bytes) x
  unfolding read_optional
  read_optional_here id default bytes x h = record { reads = λ rest. ground (arith, h.reads rest) }

  -- A section that does not stand: what follows is another section, or the end.
  pub read_optional_absent :
      (id : ℕ) (default : A) (rest : List ℕ)
      → (rest ≡ []) ⊎ ((b : ℕ) × (bs : List ℕ) × (rest ≡ b ∷ bs) × (id < b))
      → read_optional id default r rest ≡ some (default, rest)
  unfolding read_optional
  read_optional_absent id default [] h = refl
  read_optional_absent id default (b ∷ bs) h = ground arith

pub Reads-last :
    {A B : Type 0} {m : Reader A} (g : A → B) {bs : List ℕ} {x : A}
    → Reads m bs x
    → Reads (m >>= (λ a. pure (g a))) bs (g x)
Reads-last g {bs} {x} h =
    Reads-of_eq (sym (append-nil bs)) (Reads-bind (λ a. pure (g a)) h (Reads-pure (g x)))

pub Adds-push : (b : ℕ) → Adds (λ out. push out b) (b ∷ [])
Adds-push b = record { adds = λ out. refl }

pub Adds-then :
    {f g : List ℕ → List ℕ} {bs cs : List ℕ}
    → Adds f bs
    → Adds g cs
    → Adds (λ out. g (f out)) (bs ++ cs)
Adds-then {f} {g} {bs} {cs} h k = record {
  adds = λ out. k.adds (f out) ∙ ap (λ t. t ++ cs) (h.adds out) ∙ append_assoc out bs cs;
}

pub Adds-of :
    {A : Type 0} {w : List ℕ → A → List ℕ} → Appends w → (x : A) → Adds (λ out. w out x) (w [] x)
Adds-of a x = record { adds = λ out. a.appends out x }

pub Appends-of :
    {A : Type 0} {w : List ℕ → A → List ℕ} (bytes : A → List ℕ)
    → ((x : A) → Adds (λ out. w out x) (bytes x))
    → Appends w
Appends-of {w} bytes h = record {
  appends = λ out x. (h x).adds out ∙ ap (λ t. out ++ t) (sym ((h x).adds []));
}

pub Reads-of_Adds :
    {A : Type 0} {f : List ℕ → List ℕ} {bs : List ℕ} {r : Reader A} {x : A}
    → Adds f bs
    → Reads r bs x
    → Reads r (f []) x
Reads-of_Adds a h = Reads-of_eq (a.adds []) h

pub Reads-any_byte : (b : ℕ) → Reads any_byte (b ∷ []) b
unfolding any_byte
Reads-any_byte b = record { reads = λ rest. refl }

All-Reads-any_byte : (bs : List ℕ) → All (λ b. Reads any_byte (b ∷ []) b) bs
All-Reads-any_byte [] = tt
All-Reads-any_byte (b ∷ bs) = (Reads-any_byte b, All-Reads-any_byte bs)

-- A vector of bytes, such as a name.
abbrev pub encode_bytes : List ℕ → List ℕ → List ℕ
encode_bytes = encode_vec push Appends-push

pub Appends-encode_bytes : Appends encode_bytes
Appends-encode_bytes = Appends-encode_vec push Appends-push

pub Reads-encode_bytes :
    (bs : List ℕ) → length bs < 2 ^ 32 → Reads (read_vec any_byte) (encode_bytes [] bs) bs
Reads-encode_bytes bs h = Reads-read_vec push Appends-push any_byte bs h (All-Reads-any_byte bs)

pub for_each-push : (out bs : List ℕ) → for_each push out bs ≡ out ++ bs
unfolding for_each
for_each-push out [] = sym (append-nil out)
for_each-push out (b ∷ bs) = for_each-push (push out b) bs ∙ append_assoc out (b ∷ []) bs
