-- ===== src/JsonParse/Keeping.antt =====
-- What the parts of a parser keep of a message, or make of it.
use Prim.Native.String.{String}
use content_based.Base.{
  subst, inl, inr, Option, none, some, ℕ, zero, suc, ◌+◌, ℤ, pos, negsuc, Option-cases, arith,
}
use content_based.Storage.{Bytes}
use content_based.JsonParse.{
  Json, Parsed, next, stop, reads_null, bind, ◌>>>◌, take_int, take_double, take_string, take_u64,
  required, optional, each, array_of,
}

-- What holds of a message that a parser goes on with; the codes that it stops with are negative.
abbrev pub After {ℓ} : {M : Type ℓ} → (M → Type 0) → Parsed M → Type 0
After P (next m) = P m
After P (stop (pos n) m) = ⊥
After P (stop (negsuc n) m) = Unit
After P reads_null = Unit

pub bind-After {ℓ} :
    {M : Type ℓ} (P Q : M → Type 0) (p : Parsed M) (g : M → Parsed M)
    → After P p
    → ((m : M) → P m → After Q (g m))
    → After Q (bind p g)
bind-After P Q (next m) g h k = k m h
bind-After P Q (stop (pos n) m) g h k = absurd h
bind-After P Q (stop (negsuc n) m) g h k = tt
bind-After P Q reads_null g h k = tt

-- `P` before, and `Q` after.
pub record Step {ℓ} {M : Type ℓ} (P : M → Type 0) (f : M → Parsed M) (Q : M → Type 0) : Type ℓ where
  pub ensures : (m : M) → P m → After Q (f m)

infixr 5 ◌and_then◌
pub ◌and_then◌ {ℓ} :
    {M : Type ℓ} {P Q R : M → Type 0} {f g : M → Parsed M}
    → Step P f Q
    → Step Q g R
    → Step P (f >>> g) R
◌and_then◌ {Q = Q} {R = R} {f = f} {g = g} h k = record {
  ensures = λ m p. bind-After Q R (f m) g (h.ensures m p) k.ensures;
}

module _ {F : Type 0} (js : Json F) (json : js.Node) {M : Type 0}
    (keep : Option js.Node → M → M) where
  open js use {Node, get_object_item, get_array_size, get_array_item, valuestring}

  each-After :
      (P : ℕ → M → Type 0) (a : Node) (k : ℕ) (put : ℕ → Node → M → Parsed M) (i n : ℕ)
      → ((j : ℕ) (v : Option Node) (m : M) → P j m → P j (keep v m))
      → ((j : ℕ) (v : Node) (m : M) → P j m → After (P (suc j)) (put j v m))
      → (m : M) → P i m
      → After (P (i + n)) (each js keep a (negsuc k) put i n m)
  unfolding each
  each-After P a k put i zero kept h m p = subst (λ j. P j m) (omega arith) p
  each-After P a k put i (suc n) kept h m p = elim (Option-cases (get_array_item a i)) [
    | inl e ↦ rw e tt
    | inr s ↦ rw s.1 (
        bind-After (P (suc i)) (P (i + suc n)) (put i s.0 (keep (some s.0) m)) _
          (h i s.0 (keep (some s.0) m) (kept i (some s.0) m p))
          λ m' p'.
            subst (λ j. After (P j) (each js keep a (negsuc k) put (suc i) n m')) (omega arith)
              (each-After P a k put (suc i) n kept h m' p'))
  ]

  -- The loop over a whole array.
  pub each_all-After :
      (P : ℕ → M → Type 0) (a : Node) (k : ℕ) (put : ℕ → Node → M → Parsed M) (n : ℕ)
      → ((j : ℕ) (v : Option Node) (m : M) → P j m → P j (keep v m))
      → ((j : ℕ) (v : Node) (m : M) → P j m → After (P (suc j)) (put j v m))
      → (m : M) → P 0 m
      → After (P n) (each js keep a (negsuc k) put 0 n m)
  each_all-After P a k put n kept h m p =
      subst (λ j. After (P j) (each js keep a (negsuc k) put 0 n m)) (omega arith)
        (each-After P a k put 0 n kept h m p)

  -- What the parts of a parser keep, where their setters do.
  module _ (P : M → Type 0) (kept : (v : Option Node) (m : M) → P m → P (keep v m)) where
    pub required-Keeps :
        (key : String) (k : ℕ) (found : Node → M → Parsed M)
        → ((n : Node) (m : M) → P m → After P (found n m))
        → Step P (required js keep json key (negsuc k) found) P
    unfolding required
    required-Keeps key k found h = record {
      ensures = λ m p. elim (Option-cases (get_object_item json key)) [
        | inl e ↦ rw e tt
        | inr s ↦ rw s.1 (h s.0 _ (kept (some s.0) m p))
      ];
    }

    pub optional-Keeps :
        (key : String) (set : M → M) (found : Node → M → Parsed M)
        → ((m : M) → P m → P (set m))
        → ((n : Node) (m : M) → P m → After P (found n m))
        → Step P (optional js keep json key set found) P
    unfolding optional
    optional-Keeps key set found hs h = record {
      ensures = λ m p. elim (Option-cases (get_object_item json key)) [
        | inl e ↦ rw e (hs _ (kept none m p))
        | inr s ↦ rw s.1 (h s.0 _ (kept (some s.0) m p))
      ];
    }

    pub array_of-Keeps :
        (key : String) (check : ℕ → M → Parsed M) (k : ℕ) (put : ℕ → Node → M → Parsed M)
        → ((n : ℕ) (m : M) → P m → After P (check n m))
        → ((i : ℕ) (n : Node) (m : M) → P m → After P (put i n m))
        → Step P (array_of js keep json key check (negsuc k) put) P
    unfolding array_of
    array_of-Keeps key check k put hc h = record {
      ensures = λ m p. elim (Option-cases (get_object_item json key)) [
        | inl e ↦ rw e p
        | inr s ↦ rw s.1 (
            bind-After P P (check (get_array_size s.0) m) _ (hc (get_array_size s.0) m p) (
              each_all-After (λ i. P) s.0 k put (get_array_size s.0) (λ j. kept)
                (λ j v m p. h j v m p)))
      ];
    }

    pub take_int-Keeps :
        (set : ℤ → M → M)
        → ((v : ℤ) (m : M) → P m → P (set v m))
        → (n : Node) (m : M) → P m
        → After P (take_int js keep set n m)
    unfolding take_int
    take_int-Keeps set h n m p = h _ m p

    pub take_double-Keeps :
        (set : F → M → M)
        → ((v : F) (m : M) → P m → P (set v m))
        → (n : Node) (m : M) → P m
        → After P (take_double js keep set n m)
    unfolding take_double
    take_double-Keeps set h n m p = h _ m p

    pub take_string-Keeps :
        (set : Bytes → M → M)
        → ((v : Bytes) (m : M) → P m → P (set v m))
        → (n : Node) (m : M) → P m
        → After P (take_string js keep set n m)
    unfolding take_string
    take_string-Keeps set h n m p = elim (Option-cases (valuestring n)) [
      | inl e ↦ rw e tt
      | inr s ↦ rw s.1 (h s.0 m p)
    ]

    pub take_u64-Keeps :
        (set : ℕ → M → M)
        → ((v : ℕ) (m : M) → P m → P (set v m))
        → (n : Node) (m : M) → P m
        → After P (take_u64 js keep set n m)
    unfolding take_u64
    take_u64-Keeps set h = take_string-Keeps _ λ b. h _
