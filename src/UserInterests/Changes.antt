-- ===== src/UserInterests/Changes.antt =====
-- What the users' current interests stand for: counts of clicks, which stop at 0.
use content_based.Base.{
  ◌≡◌, ap, ◌∙◌, ◌&&◌, Option, none, some, [], ◌∷◌, if◌then◌else◌, ℕ, ◌+◌, ◌-◌, ◌≤◌, ℤ, pos, negsuc,
  ◌==◌, ◌==ℤ◌, ==ℤ_iff, ==_iff, arith, Option-cases, Bool-cases, inl, inr,
}
use content_based.Map.{Map, find, place, insert, assign, int_key, nat_key}
use content_based.Map.Laws.{find-insert, find-assign, find-same}
use content_based.UserInterests.{or_empty}

-- A click that is counted, or taken back.
pub data Change : Type 0 where
  gain loss : Change

abbrev pub amount : Change → ℤ
amount gain = pos 1
amount loss = negsuc 0

-- The change of a count, which stops at 0.
abbrev pub changed : Change → ℕ → ℕ
changed gain n = n + 1
changed loss n = n - 1

abbrev pub or_zero : Option ℕ → ℕ
or_zero none = 0
or_zero (some n) = n

-- The changes on the counts: of one user, and of all.
unfoldable pub change_counts : Change → ℤ → Map ℤ ℕ → Map ℤ ℕ
change_counts k c m = elim (find c m) [
  | some n ↦ assign c (changed k n) m
  | none ↦ insert c (changed k 0) m
]

unfoldable pub change_users : Change → ℕ → ℤ → Map ℕ (Map ℤ ℕ) → Map ℕ (Map ℤ ℕ)
change_users k u c m =
    let users = insert u [] m in assign u (change_counts k c (or_empty (find u users))) users

-- The count of a category, and of a category of a user; 0 where there is no entry.
abbrev pub count_of : ℤ → Map ℤ ℕ → ℕ
count_of c m = or_zero (find c m)

abbrev pub user_count : ℕ → ℤ → Map ℕ (Map ℤ ℕ) → ℕ
user_count u c m = count_of c (or_empty (find u m))

pub count_of-change_counts :
    (k : Change) (c d : ℤ) (m : Map ℤ ℕ)
    → count_of d (change_counts k c m)
      ≡ (if c ==ℤ d then changed k (count_of d m) else count_of d m)
unfolding change_counts
count_of-change_counts k c d m = elim (Option-cases (find c m)) [
  | inl e ↦
      rw (e, change_counts)
        (ground (arith, find-insert c d (changed k 0) m, ==ℤ_iff c d, find-same c d m, e))
  | inr (n, e) ↦
      rw (e, change_counts)
        (ground (arith, find-assign c d (changed k n) n m e, ==ℤ_iff c d, find-same c d m, e))
]

-- Giving a user an empty map changes no count.
module _ {V : Type 0} where
  pub find-new_user :
      (u : ℕ) (m : Map ℕ (Map ℤ V)) → find u (insert u [] m) ≡ some (or_empty (find u m))
  find-new_user u m = ground (arith, find-insert u u [] m, ==_iff u u)

  pub or_empty-new_user :
      (u v : ℕ) (m : Map ℕ (Map ℤ V)) → or_empty (find v (insert u [] m)) ≡ or_empty (find v m)
  or_empty-new_user u v m = ground (arith, find-insert u v [] m)

  or_empty-assign :
      (u v : ℕ) (x : Map ℤ V) (m : Map ℕ (Map ℤ V))
      → or_empty (find v (assign u x (insert u [] m))) ≡ (if u == v then x else or_empty (find v m))
  or_empty-assign u v x m =
      let users = insert u [] m in
      rw (find-assign u v x (or_empty (find u m)) users (find-new_user u m))
        (ground (arith, or_empty-new_user u v m))

pub user_count-change_users :
    (k : Change) (u v : ℕ) (c d : ℤ) (m : Map ℕ (Map ℤ ℕ))
    → user_count v d (change_users k u c m)
      ≡ (if (u == v) && (c ==ℤ d) then changed k (user_count v d m) else user_count v d m)
unfolding change_users
user_count-change_users k u v c d m =
    let inner = or_empty (find u (insert u [] m)) in
    rw (or_empty-assign u v (change_counts k c inner) m) (elim (Bool-cases (u == v)) [
      | inl e ↦
          let same : inner ≡ or_empty (find v m) =
            or_empty-new_user u u m ∙ ap (λ w. or_empty (find w m)) ((==_iff u v).0 e) in
          rw (e, same) (count_of-change_counts k c d (or_empty (find v m)))
      | inr e ↦ rw e
    ])

-- No count of a map is above a bound.
abbrev pub Bounded : ℕ → Map ℤ ℕ → Type 0
Bounded b [] = Unit
Bounded b ((c, n) ∷ m) = (n ≤ b) × Bounded b m

abbrev pub BoundedUsers : ℕ → Map ℕ (Map ℤ ℕ) → Type 0
BoundedUsers b [] = Unit
BoundedUsers b ((u, m) ∷ us) = Bounded b m × BoundedUsers b us

pub find-Bounded : (b : ℕ) (c : ℤ) (n : ℕ) (m : Map ℤ ℕ) → Bounded b m → find c m ≡ some n → n ≤ b
unfolding find
find-Bounded b c n [] h e = cc
find-Bounded b c n ((a, k) ∷ m) (h, hs) e = ground (arith, find-Bounded b c n m hs)

Bounded-mono : (b : ℕ) (m : Map ℤ ℕ) → Bounded b m → Bounded (b + 1) m
Bounded-mono b [] h = tt
Bounded-mono b ((c, n) ∷ m) (h, hs) = (omega arith, Bounded-mono b m hs)

place-Bounded :
    (b : ℕ) (c : ℤ) (n : ℕ) (m : Map ℤ ℕ) → n ≤ b → Bounded b m → Bounded b (place c n m)
unfolding place
place-Bounded b c n [] h r = (h, tt)
place-Bounded b c n ((a, k) ∷ m) h (r, rs) = ground (arith, place-Bounded b c n m h rs)

assign-Bounded :
    (b : ℕ) (c : ℤ) (n : ℕ) (m : Map ℤ ℕ) → n ≤ b → Bounded b m → Bounded b (assign c n m)
unfolding assign
assign-Bounded b c n [] h r = tt
assign-Bounded b c n ((a, k) ∷ m) h (r, rs) = ground (arith, assign-Bounded b c n m h rs)

change_counts-Bounded :
    (k : Change) (c : ℤ) (b : ℕ) (m : Map ℤ ℕ) → Bounded b m → Bounded (b + 1) (change_counts k c m)
unfolding change_counts insert
change_counts-Bounded k c b m h = elim (Option-cases (find c m)) [
  | inl e ↦
      rw (e, change_counts)
        (rw (e, insert)
          (place-Bounded (b + 1) c (changed k 0) m (changed_le k 0 b (omega arith))
            (Bounded-mono b m h)))
  | inr (n, e) ↦
      rw (e, change_counts)
        (assign-Bounded (b + 1) c (changed k n) m (changed_le k n b (find-Bounded b c n m h e))
          (Bounded-mono b m h))
]
  where
    changed_le : (k : Change) (n b : ℕ) → n ≤ b → changed k n ≤ b + 1
    changed_le gain n b h = omega arith
    changed_le loss n b h = omega arith

pub find-BoundedUsers :
    (b u : ℕ) (m : Map ℕ (Map ℤ ℕ)) → BoundedUsers b m → Bounded b (or_empty (find u m))
unfolding find
find-BoundedUsers b u [] h = tt
find-BoundedUsers b u ((v, m) ∷ us) (h, hs) = ground (arith, find-BoundedUsers b u us hs)

pub BoundedUsers-mono : (b : ℕ) (m : Map ℕ (Map ℤ ℕ)) → BoundedUsers b m → BoundedUsers (b + 1) m
BoundedUsers-mono b [] h = tt
BoundedUsers-mono b ((u, m) ∷ us) (h, hs) = (Bounded-mono b m h, BoundedUsers-mono b us hs)

place-BoundedUsers :
    (b u : ℕ) (x : Map ℤ ℕ) (m : Map ℕ (Map ℤ ℕ))
    → Bounded b x
    → BoundedUsers b m
    → BoundedUsers b (place u x m)
unfolding place
place-BoundedUsers b u x [] h r = (h, tt)
place-BoundedUsers b u x ((v, m) ∷ us) h (r, rs) = ground (arith, place-BoundedUsers b u x us h rs)

assign-BoundedUsers :
    (b u : ℕ) (x : Map ℤ ℕ) (m : Map ℕ (Map ℤ ℕ))
    → Bounded b x
    → BoundedUsers b m
    → BoundedUsers b (assign u x m)
unfolding assign
assign-BoundedUsers b u x [] h r = tt
assign-BoundedUsers b u x ((v, m) ∷ us) h (r, rs) =
    ground (arith, assign-BoundedUsers b u x us h rs)

pub change_users-BoundedUsers :
    (k : Change) (u : ℕ) (c : ℤ) (b : ℕ) (m : Map ℕ (Map ℤ ℕ))
    → BoundedUsers b m
    → BoundedUsers (b + 1) (change_users k u c m)
unfolding change_users insert
change_users-BoundedUsers k u c b m h =
    assign-BoundedUsers (b + 1) u _ _ (change_counts-Bounded k c b _ (find-BoundedUsers b u _ new))
      (BoundedUsers-mono b _ new)
  where
    new : BoundedUsers b (insert u [] m)
    new = elim (Option-cases (find u m)) [
      | inl e ↦ rw (e, insert) (place-BoundedUsers b u [] m tt h)
      | inr (x, e) ↦ rw (e, insert) h
    ]
