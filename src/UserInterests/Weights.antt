-- ===== src/UserInterests/Weights.antt =====
-- The weights of the users' current interests, against the counts of `Changes`.
use content_based.Base.{
  ◌≡◌, refl, sym, ap, subst, ◌∙◌, Bool, true, false, ◌&&◌, Option, none, some, List, [], ◌∷◌,
  if◌then◌else◌, ℕ, zero, suc, ◌+◌, ◌-◌, ◌≤◌, ◌<◌, ◌^◌, ℤ, pos, negsuc, ◌+ℤ◌, ltb_ℤ, leb_ℤ, ◌==◌,
  ◌==ℤ◌, arith, length, All, Option-cases, Bool-cases, inl, inr,
}
use content_based.Floats.{Floats, IsExact, IsSmall}
use content_based.Map.{Map, find, insert, assign, int_key, nat_key}
use content_based.Map.Laws.{
  map_option, map_values, find-map_values, assign-map_values, insert-map_values,
}
use content_based.Protocol.{CategoryClick}
use content_based.UserInterests.{
  UserInterests, InterestOptions, IsUserKey, or_empty, train_weights, train_user_category,
  train_category, train_click, eliminate_click,
}
use content_based.UserInterests.Changes.{
  Change, gain, loss, amount, changed, or_zero, change_counts, change_users, user_count,
  user_count-change_users, Bounded, BoundedUsers, find-Bounded, find-BoundedUsers,
  BoundedUsers-mono, change_users-BoundedUsers, or_empty-new_user,
}

-- A click that is trained, or eliminated.
pub data Act : Type 0 where
  trains eliminates : CategoryClick → Act

abbrev pub user_of : Act → ℕ
user_of (trains k) = k.user_id
user_of (eliminates k) = k.user_id

-- How an act changes the count of a category of a user, for one value of `current_day_`.
pub expected : ℕ → ℤ → ℤ → Act → ℕ → ℕ
expected u c day (trains k) n =
    if ltb_ℤ day k.publish_time && ((k.user_id == u) && (k.category_id ==ℤ c)) then n + 1 else n
expected u c day (eliminates k) n =
    if leb_ℤ k.publish_time day && ((k.user_id == u) && (k.category_id ==ℤ c)) then n - 1 else n

pub expected_all : ℕ → ℤ → ℤ → List Act → ℕ → ℕ
expected_all u c day [] n = n
expected_all u c day (a ∷ as') n = expected_all u c day as' (expected u c day a n)

module _ (fl : Floats) where
  open fl use {Double, Float, of_int, add, lt}

  abbrev of_count : ℕ → Double
  of_count n = of_int (pos n)

  -- The weight of a category of a user; 0 where there is no entry.
  abbrev pub value : Option Double → Double
  value none = of_int (pos 0)
  value (some v) = v

  abbrev pub weight_of : ℕ → ℤ → UserInterests Double → Double
  weight_of u c s = value (find c (or_empty (find u s.current_user_dist)))

  value-map_option : (o : Option ℕ) → value (map_option of_count o) ≡ of_count (or_zero o)
  value-map_option none = refl
  value-map_option (some n) = refl

  abbrev embed : Map ℤ ℕ → Map ℤ Double
  embed = map_values of_count

  abbrev embed_users : Map ℕ (Map ℤ ℕ) → Map ℕ (Map ℤ Double)
  embed_users = map_values embed

  or_empty-embed : (o : Option (Map ℤ ℕ)) → or_empty (map_option embed o) ≡ embed (or_empty o)
  unfolding map_values
  or_empty-embed none = refl
  or_empty-embed (some m) = refl

  module _ (opts : InterestOptions Float) where
    pub act : Act → UserInterests Double → UserInterests Double
    act (trains k) s = (train_click fl opts k s).1
    act (eliminates k) s = (eliminate_click fl opts k s).1

    pub act_all : List Act → UserInterests Double → UserInterests Double
    act_all [] s = s
    act_all (a ∷ as') s = act_all as' (act a s)

  module _ (exact : IsExact fl) where
    open exact use {add_exact, lt_exact}

    add_count :
        (n : ℕ) (a z : ℤ)
        → IsSmall (pos n)
        → IsSmall a
        → IsSmall z
        → pos n +ℤ a ≡ z
        → add (of_count n) (of_int a) ≡ of_int z
    add_count n a z hn ha hz e = add_exact (pos n) a hn ha (subst IsSmall (sym e) hz) ∙ ap of_int e

    -- Adding the amount and stopping at 0 is the change of the count.
    clamp-changed :
        (k : Change) (n : ℕ)
        → n < 2 ^ 53
        → (if lt (add (of_count n) (of_int (amount k))) (of_int (pos 0))
            then of_int (pos 0)
            else add (of_count n) (of_int (amount k)))
          ≡ of_count (changed k n)
    unfolding ◌+ℤ◌
    clamp-changed gain n h =
        let up : pos n +ℤ pos 1 ≡ pos (n + 1) = ground arith in
        rw
          (
            add_count n (pos 1) (pos (n + 1)) (omega arith) (omega arith) (omega arith) up,
            lt_exact (pos (n + 1)) (pos 0) (omega arith) (omega arith),
          )
          (ground arith)
    clamp-changed loss zero h = rw (
      add_count 0 (negsuc 0) (negsuc 0) (omega arith) (omega arith) (omega arith) refl,
      lt_exact (negsuc 0) (pos 0) (omega arith) (omega arith),
    )
    clamp-changed loss (suc n) h =
        let down : pos (suc n) +ℤ negsuc 0 ≡ pos (suc n - 1) = ground arith in
        rw
          (
            add_count (suc n) (negsuc 0) (pos (suc n - 1)) (omega arith) (omega arith) (omega arith)
                down,
            lt_exact (pos (suc n - 1)) (pos 0) (omega arith) (omega arith),
          )
          (ground arith)

    clamp-changed_zero :
        (k : Change)
        → of_int (if ltb_ℤ (amount k) (pos 0) then pos 0 else amount k) ≡ of_count (changed k 0)
    clamp-changed_zero gain = refl
    clamp-changed_zero loss = refl

    train_weights-embed :
        (k : Change) (c : ℤ) (b : ℕ) (m : Map ℤ ℕ)
        → Bounded b m
        → b < 2 ^ 53
        → train_weights fl c (amount k) (embed m) ≡ embed (change_counts k c m)
    unfolding train_weights change_counts
    train_weights-embed k c b m h small = elim (Option-cases (find c m)) [
      | inl e ↦
          let absent : find c (embed m) ≡ none = rw (find-map_values of_count c m, e) in
          rw (absent, e, train_weights, change_counts)
            (rw (clamp-changed_zero k) (insert-map_values of_count c (changed k 0) m))
      | inr (n, e) ↦
          let present : find c (embed m) ≡ some (of_count n) =
            rw (find-map_values of_count c m, e) in
          let bound : n ≤ b = find-Bounded b c n m h e in
          rw (present, e, train_weights, change_counts)
            (rw (clamp-changed k n (omega arith)) (assign-map_values of_count c (changed k n) m))
    ]

    train_user_category-embed :
        (k : Change) (u : ℕ) (c : ℤ) (b : ℕ) (m : Map ℕ (Map ℤ ℕ)) (s : UserInterests Double)
        → BoundedUsers b m
        → b < 2 ^ 53
        → s.current_user_dist ≡ embed_users m
        → (train_user_category fl u c (amount k) s).current_user_dist
          ≡ embed_users (change_users k u c m)
    unfolding train_user_category change_users map_values
    train_user_category-embed k u c b m s h small e =
        let users = insert u [] m in
        let inner = or_empty (find u users) in
        let bound : Bounded b inner =
          subst (Bounded b) (sym (or_empty-new_user u u m)) (find-BoundedUsers b u m h) in
        let weights = train_weights fl c (amount k) in
        ap (λ x. assign u (weights (or_empty (find u x))) x)
          (ap (insert u []) e ∙ insert-map_values embed u [] m)
        ∙ ap (λ x. assign u (weights x) (embed_users users))
            (ap or_empty (find-map_values embed u users) ∙ or_empty-embed (find u users))
        ∙ ap (λ x. assign u x (embed_users users)) (train_weights-embed k c b inner bound small)
        ∙ assign-map_values embed u (change_counts k c inner) users

    -- An act changes the counts, or not, as its day says.
    record Follows (b : ℕ) (u : ℕ) (c : ℤ) (n : ℕ) (day : ℤ) (s : UserInterests Double)
        : Type 0 where
      counts : Map ℕ (Map ℤ ℕ)
      bounded : BoundedUsers b counts
      embedded : s.current_user_dist ≡ embed_users counts
      counted : user_count u c counts ≡ n
      same_day : s.current_day ≡ day

    Follows-mono :
        (b u : ℕ) (c : ℤ) (n : ℕ) (day : ℤ) (s : UserInterests Double)
        → Follows b u c n day s
        → Follows (b + 1) u c n day s
    Follows-mono b u c n day s f = record {
      counts = f.counts;
      bounded = BoundedUsers-mono b f.counts f.bounded;
      embedded = f.embedded;
      counted = f.counted;
      same_day = f.same_day;
    }

    Follows-change :
        (k : Change) (v : ℕ) (d : ℤ) (b u : ℕ) (c : ℤ) (n : ℕ) (day : ℤ)
        (s s' : UserInterests Double)
        → b < 2 ^ 53
        → s'.current_user_dist ≡ s.current_user_dist
        → s'.current_day ≡ s.current_day
        → Follows b u c n day s
        → Follows
            (b + 1)
            u
            c
            (if (v == u) && (d ==ℤ c) then changed k n else n)
            day
            (train_user_category fl v d (amount k) s')
    unfolding train_user_category
    Follows-change k v d b u c n day s s' small e e' f = record {
      counts = change_users k v d f.counts;
      bounded = change_users-BoundedUsers k v d b f.counts f.bounded;
      embedded = train_user_category-embed k v d b f.counts s' f.bounded small (e ∙ f.embedded);
      counted =
          user_count-change_users k v u d c f.counts
          ∙ ap (λ m. if (v == u) && (d ==ℤ c) then changed k m else m) f.counted;
      same_day = day_kept ∙ e' ∙ f.same_day;
    }
      where
        day_kept : (train_user_category fl v d (amount k) s').current_day ≡ s'.current_day
        day_kept = refl

    -- Counting a category leaves the users' interests alone.
    train_category_keeps :
        (t : Bool) (c count : ℤ) (s : UserInterests Double)
        → let s' = (if t then train_category fl c count s else s) in
          (s'.current_user_dist ≡ s.current_user_dist) × (s'.current_day ≡ s.current_day)
    unfolding train_category
    train_category_keeps t c count s = ground arith

    module _ (opts : InterestOptions Float) where
      act-Follows :
          (a : Act) (b u : ℕ) (c : ℤ) (n : ℕ) (day : ℤ) (s : UserInterests Double)
          → b < 2 ^ 53
          → Follows b u c n day s
          → Follows (b + 1) u c (expected u c day a n) day (act opts a s)
      unfolding act expected train_click eliminate_click
      act-Follows (trains k) b u c n day s small f =
          let (e, e') =
            train_category_keeps (pos 0 ==ℤ opts.prior_prob_type) k.category_id (pos 1) s in
          let moved = λ (t : ltb_ℤ s.current_day k.publish_time ≡ true).
            Follows-change gain k.user_id k.category_id b u c n day s _ small e e' f in
          elim (Bool-cases (ltb_ℤ s.current_day k.publish_time)) [
            | inl t ↦
                rw
                  (
                    t,
                    subst (λ d. ltb_ℤ d k.publish_time ≡ true) f.same_day t,
                    act,
                    train_click,
                    expected,
                  )
                  (moved t)
            | inr t ↦
                rw
                  (
                    t,
                    subst (λ d. ltb_ℤ d k.publish_time ≡ false) f.same_day t,
                    act,
                    train_click,
                    expected,
                  )
                  (Follows-mono b u c n day s f)
          ]
      act-Follows (eliminates k) b u c n day s small f =
          let (e, e') =
            train_category_keeps (pos 0 ==ℤ opts.prior_prob_type) k.category_id (negsuc 0) s in
          elim (Bool-cases (leb_ℤ k.publish_time s.current_day)) [
            | inl t ↦
                rw
                  (
                    t,
                    subst (λ d. leb_ℤ k.publish_time d ≡ true) f.same_day t,
                    act,
                    eliminate_click,
                    expected,
                  )
                  (Follows-change loss k.user_id k.category_id b u c n day s _ small e e' f)
            | inr t ↦
                rw
                  (
                    t,
                    subst (λ d. leb_ℤ k.publish_time d ≡ false) f.same_day t,
                    act,
                    eliminate_click,
                    expected,
                  )
                  (Follows-mono b u c n day s f)
          ]

      act_all-Follows :
          (acts : List Act) (b u : ℕ) (c : ℤ) (n : ℕ) (day : ℤ) (s : UserInterests Double)
          → b + length acts ≤ 2 ^ 53
          → Follows b u c n day s
          → Follows (b + length acts) u c (expected_all u c day acts n) day (act_all opts acts s)
      unfolding act_all expected_all
      act_all-Follows [] b u c n day s h f =
          let e : b ≡ b + 0 = omega arith in subst (λ x. Follows x u c n day s) e f
      act_all-Follows (a ∷ acts) b u c n day s h f =
          let e : b + 1 + length acts ≡ b + suc (length acts) = omega arith in
          subst
            (λ x. Follows x u c (expected_all u c day (a ∷ acts) n) day (act_all opts (a ∷ acts) s))
            e
            (act_all-Follows acts (b + 1) u c (expected u c day a n) day (act opts a s)
              (omega arith) (act-Follows a b u c n day s (omega arith) f))

      weight_of-Follows :
          (b u : ℕ) (c : ℤ) (n : ℕ) (day : ℤ) (s : UserInterests Double)
          → Follows b u c n day s
          → weight_of u c s ≡ of_count n
      weight_of-Follows b u c n day s f =
          let inner = or_empty (find u f.counts) in
          ap (λ m. value (find c (or_empty (find u m)))) f.embedded
          ∙ ap (λ m. value (find c (or_empty m))) (find-map_values embed u f.counts)
          ∙ ap (λ m. value (find c m)) (or_empty-embed (find u f.counts))
          ∙ ap value (find-map_values of_count c inner)
          ∙ value-map_option (find c inner)
          ∙ ap of_count f.counted

      -- Starting with no current interests, any sequence of at most 2^53 clicks that are trained or
      -- eliminated, of users other than 0 and 2^64 - 1, leaves each such user for each category exactly the weight that comes of counting up
      -- for a trained click after the current day and down for an eliminated one not after it, but
      -- never below 0.
      pub weight_of-act_all :
          (acts : List Act) (u : ℕ) (c : ℤ) (s : UserInterests Double)
          → IsUserKey u
          → All (λ a. IsUserKey (user_of a)) acts
          → length acts ≤ 2 ^ 53
          → s.current_user_dist ≡ []
          → weight_of u c (act_all opts acts s) ≡ of_count (expected_all u c s.current_day acts 0)
      unfolding map_values find
      weight_of-act_all acts u c s user users h e =
          weight_of-Follows (0 + length acts) u c _ s.current_day (act_all opts acts s) (
            act_all-Follows acts 0 u c 0 s.current_day s (omega arith)
              (record { counts = []; bounded = tt; embedded = e; counted = refl; same_day = refl }))
