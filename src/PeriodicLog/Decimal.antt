-- ===== src/PeriodicLog/Decimal.antt =====
-- The C library's `sprintf("%d")` and `atoi`, as the log headers and the category table use them.
-- `atoi` is defined by the standard for values of the type `int` only; here it has no bound.
use content_based.Base.{
  All, ℕ, zero, suc, ◌+◌, ◌-◌, ◌*◌, ◌/◌, ◌%◌, ◌<◌, ◌≡◌, refl, ap, ◌∙◌, not, ◌++◌, inl, inr, Bool,
  true, false, ◌&&◌, ◌||◌, [], ◌∷◌, arith, ltb, leb, ◌==◌, if◌then◌else◌, Bool-cases, ltb→lt,
  ltb→le, ℤ, pos, negsuc,
}
use content_based.Storage.{Bytes}

-- The digits of a number in front of `rest`.
digits : ℕ → ℕ → Bytes → Bytes
digits zero n rest = rest
digits (suc fuel) n rest =
    let more = digits fuel (n / 10) ((48 + n % 10) ∷ rest) in
    if ltb n 10 then (48 + n) ∷ rest else more

unfoldable pub sprintf_d : ℤ → Bytes
unfolding digits
sprintf_d (pos n) = digits (suc n) n []
sprintf_d (negsuc n) = 45 ∷ digits (suc (suc n)) (suc n) []

abbrev pub is_digit : ℕ → Bool
is_digit c = leb 48 c && leb c 57

unfoldable pub atoi_from : ℕ → Bytes → ℕ
atoi_from acc [] = acc
atoi_from acc (c ∷ cs) =
    let rest = atoi_from (acc * 10 + (c - 48)) cs in if is_digit c then rest else acc

-- Blank, tabulator, newline, vertical tabulator, form feed and carriage return.
abbrev pub is_blank : ℕ → Bool
is_blank c = (c == 32) || (leb 9 c && leb c 13)

abbrev pub of_sign : Bool → ℕ → ℤ
of_sign true zero = pos 0
of_sign true (suc n) = negsuc n
of_sign false n = pos n

unfoldable pub atoi : Bytes → ℤ
unfolding atoi_from
atoi [] = pos 0
atoi (c ∷ cs) =
    let rest = atoi cs in
    if is_blank c
    then rest
    else if c == 45
    then of_sign true (atoi_from 0 cs)
    else if c == 43
    then of_sign false (atoi_from 0 cs)
    else of_sign false (atoi_from 0 (c ∷ cs))

atoi_from-digits :
    (fuel n : ℕ) (rest : Bytes) → n < fuel → atoi_from 0 (digits fuel n rest) ≡ atoi_from n rest
unfolding digits atoi_from
atoi_from-digits zero n rest h = elim h [ ]
atoi_from-digits (suc fuel) n rest h = elim (Bool-cases (ltb n 10)) [
  | inl e ↦ rw e (ground (arith, ltb→lt n 10 e))
  | inr e ↦
      rw e (ground (arith, ltb→le n 10 e, atoi_from-digits fuel (n / 10) ((48 + n % 10) ∷ rest)))
]

-- A text that begins with a digit.
abbrev starts_digit : Bytes → Bool
starts_digit [] = false
starts_digit (c ∷ cs) = is_digit c

digits-starts_digit :
    (fuel n : ℕ) (rest : Bytes) → n < fuel → starts_digit (digits fuel n rest) ≡ true
unfolding digits
digits-starts_digit zero n rest h = elim h [ ]
digits-starts_digit (suc fuel) n rest h = elim (Bool-cases (ltb n 10)) [
  | inl e ↦ rw e (ground (arith, ltb→lt n 10 e))
  | inr e ↦
      rw e (ground (arith, ltb→le n 10 e, digits-starts_digit fuel (n / 10) ((48 + n % 10) ∷ rest)))
]

atoi-starts_digit : (cs : Bytes) → starts_digit cs ≡ true → atoi cs ≡ pos (atoi_from 0 cs)
unfolding atoi
atoi-starts_digit [] h = cc
atoi-starts_digit (c ∷ cs) h = ground arith

-- What follows a number whose text ends there is left alone.
abbrev pub ends_number : Bytes → Bool
ends_number [] = true
ends_number (c ∷ cs) = not (is_digit c)

atoi_from-ends : (n : ℕ) (rest : Bytes) → ends_number rest ≡ true → atoi_from n rest ≡ n
unfolding atoi_from
atoi_from-ends n [] h = refl
atoi_from-ends n (c ∷ cs) h = ground arith

-- The bytes of a number that is not negative, in front of a text that does not go on with a digit,
-- read back as that number.
atoi-digits :
    (n : ℕ) (rest : Bytes) → ends_number rest ≡ true → atoi (digits (suc n) n rest) ≡ pos n
atoi-digits n rest h =
    atoi-starts_digit _ (digits-starts_digit (suc n) n rest (omega arith))
    ∙ ap pos (atoi_from-digits (suc n) n rest (omega arith) ∙ atoi_from-ends n rest h)

digits-append : (fuel n : ℕ) (a b : Bytes) → digits fuel n a ++ b ≡ digits fuel n (a ++ b)
unfolding digits
digits-append zero n a b = refl
digits-append (suc fuel) n a b = elim (Bool-cases (ltb n 10)) [
  | inl e ↦ rw e
  | inr e ↦ rw e (digits-append fuel (n / 10) ((48 + n % 10) ∷ a) b)
]

pub atoi-sprintf_d-append :
    (n : ℕ) (rest : Bytes) → ends_number rest ≡ true → atoi (sprintf_d (pos n) ++ rest) ≡ pos n
unfolding sprintf_d
atoi-sprintf_d-append n rest h = rw (digits-append (suc n) n [] rest) (atoi-digits n rest h)

pub atoi-sprintf_d : (n : ℕ) → atoi (sprintf_d (pos n)) ≡ pos n
unfolding sprintf_d
atoi-sprintf_d n = atoi-digits n [] refl

pub sprintf_d-starts_digit :
    (n : ℕ) → (c : ℕ) × (cs : Bytes) × (sprintf_d (pos n) ≡ c ∷ cs) × (is_digit c ≡ true)
unfolding sprintf_d
sprintf_d-starts_digit n =
    split (digits (suc n) n []) (digits-starts_digit (suc n) n [] (omega arith))
  where
    split :
        (b : Bytes)
        → starts_digit b ≡ true
        → (c : ℕ) × (cs : Bytes) × (b ≡ c ∷ cs) × (is_digit c ≡ true)
    split [] h = absurd (cc)
    split (c ∷ cs) h = (c, cs, refl, h)

digits-IsDigits :
    (fuel n : ℕ) (rest : Bytes)
    → n < fuel
    → All (λ c. is_digit c ≡ true) rest
    → All (λ c. is_digit c ≡ true) (digits fuel n rest)
unfolding digits
digits-IsDigits zero n rest h k = elim h [ ]
digits-IsDigits (suc fuel) n rest h k = elim (Bool-cases (ltb n 10)) [
  | inl e ↦ rw e (ground (arith, ltb→lt n 10 e), k)
  | inr e ↦ rw e (
      digits-IsDigits fuel (n / 10) ((48 + n % 10) ∷ rest) (ground (arith, ltb→le n 10 e))
        (ground arith, k))
]

-- A number that is not negative is written with digits only.
pub sprintf_d-IsDigits : (n : ℕ) → All (λ c. is_digit c ≡ true) (sprintf_d (pos n))
unfolding sprintf_d
sprintf_d-IsDigits n = digits-IsDigits (suc n) n [] (omega arith) tt
