-- ===== src/Examples/Sorting.antt =====
-- A sort by insertion, as a sort of the library can be.
use mathlib.Core.List.{Perm}
use mathlib.Core.List.Perm
use content_based.Base.{
  ◌≡◌, inl, inr, true, false, List, [], ◌∷◌, if◌then◌else◌, ℤ, Bool-cases, All, arith,
}
use content_based.ContentBased.Predictions.{Before, Sort, trends_sorter}
use content_based.ContentBased.Ranking.{IsStrictWeak, IsSorted, IsSort}
use content_based.Examples.{int_floats}

abbrev Element : Type 0
Element = ℤ × ℤ

abbrev pub place : Before int_floats → Element → List Element → List Element
place before t [] = t ∷ []
place before t (u ∷ us) =
    let rest = place before t us in if before u t then u ∷ rest else t ∷ u ∷ us

abbrev pub insertion_sort : Sort int_floats
insertion_sort before [] = []
insertion_sort before (t ∷ ts) = place before t (insertion_sort before ts)

place-perm :
    (before : Before int_floats) (t : Element) (ts : List Element)
    → Perm (place before t ts) (t ∷ ts)
place-perm before t [] = Perm.refl (t ∷ [])
place-perm before t (u ∷ us) = elim (Bool-cases (before u t)) [
  | inl e ↦ rw e (Perm.trans (Perm.cons u (place-perm before t us)) (Perm.swap t u us))
  | inr e ↦ rw e (Perm.refl (t ∷ u ∷ us))
]

sort-perm : (before : Before int_floats) (ts : List Element) → Perm (insertion_sort before ts) ts
sort-perm before [] = Perm.refl []
sort-perm before (t ∷ ts) =
    Perm.trans (place-perm before t (insertion_sort before ts)) (Perm.cons t (sort-perm before ts))

All-place :
    (Q : Element → Type 0) (before : Before int_floats) (t : Element) (ts : List Element)
    → Q t
    → All Q ts
    → All Q (place before t ts)
All-place Q before t [] q h = (q, tt)
All-place Q before t (u ∷ us) q h = elim (Bool-cases (before u t)) [
  | inl e ↦ rw e (h.0, All-place Q before t us q h.1)
  | inr e ↦ rw e (q, h)
]

All-sort :
    (Q : Element → Type 0) (before : Before int_floats) (ts : List Element)
    → All Q ts
    → All Q (insertion_sort before ts)
All-sort Q before [] h = tt
All-sort Q before (t ∷ ts) h = All-place Q before t _ h.0 (All-sort Q before ts h.1)

module _ (P : Element → Type 0) (before : Before int_floats)
    (weak : IsStrictWeak int_floats P before) where
  asymmetric : (a b : Element) → P a → P b → before a b ≡ true → before b a ≡ false
  asymmetric a b pa pb h = elim (Bool-cases (before b a)) [
    | inl e ↦ absurd (twice (weak.transitive a b a pa pb pa h e) (weak.irreflexive a pa))
    | inr e ↦ e
  ]
    where
      twice : before a a ≡ true → before a a ≡ false → ⊥
      twice x y = cc

  none_before :
      (u t : Element) (us : List Element)
      → P u
      → P t
      → All P us
      → before u t ≡ false
      → All (λ v. before v u ≡ false) us
      → All (λ v. before v t ≡ false) us
  none_before u t [] pu pt h e a = tt
  none_before u t (v ∷ us) pu pt h e a =
      (weak.cotransitive v u t h.0 pu pt a.0 e, none_before u t us pu pt h.1 e a.1)

  place-IsSorted :
      (t : Element) (ts : List Element)
      → P t
      → All P ts
      → IsSorted int_floats before ts
      → IsSorted int_floats before (place before t ts)
  place-IsSorted t [] pt h s = (tt, tt)
  place-IsSorted t (u ∷ us) pt h s = elim (Bool-cases (before u t)) [
    | inl e ↦ rw e (
      All-place (λ v. before v u ≡ false) before t us (asymmetric u t h.0 pt e) s.0,
      place-IsSorted t us pt h.1 s.1,
    )
    | inr e ↦ rw e ((e, none_before u t us h.0 pt h.1 e s.0), s)
  ]

  sort-IsSorted :
      (ts : List Element) → All P ts → IsSorted int_floats before (insertion_sort before ts)
  sort-IsSorted [] h = tt
  sort-IsSorted (t ∷ ts) h =
      place-IsSorted t (insertion_sort before ts) h.0 (All-sort P before ts h.1)
        (sort-IsSorted ts h.1)

pub insertion_sort-IsSort : IsSort int_floats insertion_sort
insertion_sort-IsSort = record {
  sorts = λ P before ts weak h. (sort-perm before ts, sort-IsSorted P before weak ts h);
}

-- Integers are all comparable.
abbrev pub Anything : Element → Type 0
Anything t = Unit

pub ints-IsStrictWeak : IsStrictWeak int_floats Anything (trends_sorter int_floats)
unfolding trends_sorter
ints-IsStrictWeak = record {
  irreflexive = λ a p. ground arith;
  transitive = λ a b c p q r h k. ground arith;
  cotransitive = λ a b c p q r h k. ground arith;
}

pub All-Anything : (ts : List Element) → All Anything ts
All-Anything [] = tt
All-Anything (t ∷ ts) = (tt, All-Anything ts)
