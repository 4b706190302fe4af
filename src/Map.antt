-- ===== src/Map.antt =====
-- `std::map` and `google::dense_hash_map`, as far as the sources use them: association lists whose
-- keys rise, which is the order of iteration. `insert` keeps the value of a key that is there.
pub mod Laws
pub mod Order
use content_based.Base.{
  ℕ, ◌≡◌, ◌↔◌, ◌⊎◌, Bool, true, false, Option, none, some, List, [], ◌∷◌, foldl, arith, ltb, ◌==◌,
  ==_iff, if◌then◌else◌, ℤ, ltb_ℤ, ◌==ℤ◌, ==ℤ_iff,
}

-- A type of keys with its order.
pub record Key {ℓ} (K : Type ℓ) : Type ℓ where
  pub same : K → K → Bool
  pub before : K → K → Bool
  pub same_iff : (a b : K) → (same a b ≡ true) ↔ (a ≡ b)
  pub before_trans : (a b c : K) → before a b ≡ true → before b c ≡ true → before a c ≡ true
  pub before_total : (a b : K) → same a b ≡ false → before a b ≡ false → before b a ≡ true
  pub before_ne : (a b : K) → before a b ≡ true → same a b ≡ false

abbrev pub Map {ℓ κ} : Type ℓ → Type κ → Type (ℓ ⊔ κ)
Map K V = List (K × V)

module _ {ℓ κ} {K : Type ℓ} {V : Type κ} ⦃k : Key K⦄ where
  unfoldable pub find : K → Map K V → Option V
  find a [] = none
  find a ((b, v) ∷ m) = if k.same b a then some v else find a m

  -- A new entry for a key that is not there, at its place in the order.
  unfoldable pub place : K → V → Map K V → Map K V
  place a v [] = (a, v) ∷ []
  place a v ((b, w) ∷ m) =
      let rest = place a v m in if k.before a b then (a, v) ∷ (b, w) ∷ m else (b, w) ∷ rest

  unfoldable pub insert : K → V → Map K V → Map K V
  unfolding find place
  insert a v m = elim (find a m) [ none ↦ place a v m | some _ ↦ m ]

  -- `iter->second = v` at the entry of a key.
  unfoldable pub assign : K → V → Map K V → Map K V
  assign a v [] = []
  assign a v ((b, w) ∷ m) = if k.same b a then (b, v) ∷ m else (b, w) ∷ assign a v m

module _ {ℓ κ} {K : Type ℓ} {V : Type κ} ⦃k : Key K⦄ where
  -- The loop that inserts every entry of one map into another.
  unfoldable pub insert_all : Map K V → Map K V → Map K V
  insert_all [] acc = acc
  insert_all ((a, v) ∷ m) acc = insert_all m (insert a v acc)

pub ℕ-before_trans : (a b c : ℕ) → ltb a b ≡ true → ltb b c ≡ true → ltb a c ≡ true
ℕ-before_trans a b c p q = ground arith

pub ℕ-before_total : (a b : ℕ) → (a == b) ≡ false → ltb a b ≡ false → ltb b a ≡ true
ℕ-before_total a b p q = ground arith

pub ℕ-before_ne : (a b : ℕ) → ltb a b ≡ true → (a == b) ≡ false
ℕ-before_ne a b p = ground arith

-- User ids, `uint64_t`.
instance abbrev pub nat_key : Key ℕ
nat_key = record {
  same = ◌==◌;
  before = ltb;
  same_iff = ==_iff;
  before_trans = ℕ-before_trans;
  before_total = ℕ-before_total;
  before_ne = ℕ-before_ne;
}

pub ℤ-before_trans : (a b c : ℤ) → ltb_ℤ a b ≡ true → ltb_ℤ b c ≡ true → ltb_ℤ a c ≡ true
ℤ-before_trans a b c p q = ground arith

pub ℤ-before_total : (a b : ℤ) → (a ==ℤ b) ≡ false → ltb_ℤ a b ≡ false → ltb_ℤ b a ≡ true
ℤ-before_total a b p q = ground arith

pub ℤ-before_ne : (a b : ℤ) → ltb_ℤ a b ≡ true → (a ==ℤ b) ≡ false
ℤ-before_ne a b p = ground arith

-- Category ids, `int32_t`.
instance abbrev pub int_key : Key ℤ
int_key = record {
  same = ◌==ℤ◌;
  before = ltb_ℤ;
  same_iff = ==ℤ_iff;
  before_trans = ℤ-before_trans;
  before_total = ℤ-before_total;
  before_ne = ℤ-before_ne;
}
