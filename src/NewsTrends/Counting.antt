-- ===== src/NewsTrends/Counting.antt =====
-- The training map of the news trends and the table that is dumped, against the numbers of clicks.
use content_based.Base.{
  ◌≡◌, refl, ap, ◌∙◌, none, some, List, [], ◌∷◌, ℤ, pos, ltb_ℤ, ℕ, zero, suc, ◌+◌, ◌≤◌, ◌<◌, ◌^◌,
  arith, ◌+ℤ◌, Option-cases, Bool-cases, inl, inr,
}
use content_based.Floats.{Floats, IsExact}
use content_based.Status.{Status, succeed}
use content_based.Storage.{Bytes}
use content_based.Map.{Map, find, insert, int_key}
use content_based.Map.Laws.{
  map_option, map_values, find-map_values, place-map_values, assign-map_values,
}
use content_based.Protocol.{ItemTag, Protocol}
use content_based.DistTable.Logging.{Event, clicked, listed, replay}
use content_based.NewsTrends.{
  NewsTrends, count_click, train_click, train_before, total_click, normalise, tags_of, divisor,
  dump_table,
}
use content_based.NewsTrends.Counts.{
  Counts, bump, total, counted, clicks_of, recent_clicks, tally, find-counted, total-bump,
  find-le-total, total-counted,
}

pos_add_pos : (a b : ℕ) → pos a +ℤ pos b ≡ pos (a + b)
unfolding ◌+ℤ◌
pos_add_pos a b = ground arith

module _ (fl : Floats) where
  open fl use {Double, Float, of_int, to_int, float_of_int, of_float, to_float, add, div}

  abbrev pub of_count : ℕ → Double
  of_count n = of_int (pos n)

  -- The map of the source that stands for a map of counts.
  abbrev pub embed : Counts → Map ℤ Double
  embed = map_values of_count

  module _ (exact : IsExact fl) where
    open exact use {add_exact, to_int_exact}

    add_pos : (a b : ℕ) → a + b ≤ 2 ^ 53 → add (of_count a) (of_count b) ≡ of_count (a + b)
    add_pos a b h =
        add_exact (pos a) (pos b) (omega arith) (omega arith) (rw (pos_add_pos a b) (omega arith))
        ∙ ap of_int (pos_add_pos a b)

    count_click-embed :
        (c : ℤ) (m : Counts) → total m < 2 ^ 53 → count_click fl c (embed m) ≡ embed (bump c m)
    unfolding count_click bump insert
    count_click-embed c m h = elim (Option-cases (find c m)) [
      | inl e ↦
          let absent : find c (embed m) ≡ none = rw (find-map_values of_count c m, e) in
          rw (absent, e, count_click, bump) (rw (absent, insert) (place-map_values of_count c 1 m))
      | inr (n, e) ↦
          let present : find c (embed m) ≡ some (of_count n) =
            rw (find-map_values of_count c m, e) in
          let small : n + 1 ≤ 2 ^ 53 = omega (arith, find-le-total c n m e) in
          let up : n + 1 ≡ suc n = omega arith in
          rw (present, e, count_click, bump)
            (rw (add_pos n 1 small, up) (assign-map_values of_count c (suc n) m))
    ]

    -- Training follows the counts.
    replay-embed :
        (es : List Event) (m : Counts) (s : NewsTrends Double)
        → recent_clicks s.click_expired es + total m ≤ 2 ^ 53
        → replay (train_click fl) (λ i. succeed) es (record s { map_dist_training = embed m })
          ≡ record s { map_dist_training = embed (counted s.click_expired es m) }
    unfolding replay counted recent_clicks train_click
    replay-embed [] m s h = refl
    replay-embed (listed i ∷ es) m s h = replay-embed es m s h
    replay-embed (clicked c ∷ es) m s h = elim (Bool-cases (ltb_ℤ c.publish_time s.click_expired)) [
      | inl late ↦ rw late (replay-embed es m s (ground arith))
      | inr fresh ↦
          let small : total m < 2 ^ 53 = ground arith in
          let rest : recent_clicks s.click_expired es + total (bump c.category_id m) ≤ 2 ^ 53 =
            ground (arith, total-bump c.category_id m) in
          rw fresh (
            rw (count_click-embed c.category_id m small)
              (replay-embed es (bump c.category_id m) s rest))
    ]

    total_click-embed :
        (k : ℕ) (m : Counts)
        → k + total m < 2 ^ 31
        → total_click fl (pos k) (embed m) ≡ pos (k + total m)
    unfolding total_click total map_values
    total_click-embed k [] h = let e : k ≡ k + 0 = omega arith in ap pos e
    total_click-embed k ((c, n) ∷ m) h =
        let both : k + n ≤ 2 ^ 53 = omega arith in
        let small : k + n < 2 ^ 31 = omega arith in
        let rest : k + n + total m < 2 ^ 31 = omega arith in
        let e : k + n + total m ≡ k + (n + total m) = omega arith in
        ap (λ t. total_click fl t (embed m))
          (ap to_int (add_pos k n both) ∙ to_int_exact (pos (k + n)) (small, omega arith))
        ∙ total_click-embed (k + n) m rest
        ∙ ap pos e

    -- After `trainBefore`, the events `es` leave in the training map, for every category, its
    -- number of clicks that were published within the time window, and no entry where there was
    -- none; for at most 2^53 clicks.
    pub find-replay :
        (window now c : ℤ) (es : List Event) (s : NewsTrends Double)
        → let s0 = (train_before fl window now s).1 in
          recent_clicks s0.click_expired es ≤ 2 ^ 53
          → find c (replay (train_click fl) (λ i. succeed) es s0).map_dist_training
            ≡ map_option of_count (tally (clicks_of c s0.click_expired es))
    unfolding train_before map_values total find counted
    find-replay window now c es s h =
        let s0 = (train_before fl window now s).1 in
        rw (replay-embed es [] s0 (omega arith)) (
          find-map_values of_count c (counted s0.click_expired es [])
          ∙ ap (map_option of_count)
              (find-counted s0.click_expired c es 0 [] refl ∙ ap tally (omega arith)))

    -- The share of each category.
    unfoldable pub shares : ℕ → Counts → List (ItemTag Float)
    shares n [] = []
    shares n ((c, k) ∷ m) =
        record {
          tag_id = c;
          tag_power = to_float (div (of_count k) (of_float (float_of_int (pos n))));
        }
        ∷ shares n m

    tags_of-normalise :
        (n : ℕ) (m : Counts)
        → tags_of fl (normalise fl (of_float (float_of_int (pos n))) (embed m)) ≡ shares n m
    unfolding tags_of normalise shares map_values
    tags_of-normalise n [] = refl
    tags_of-normalise n ((c, k) ∷ m) = rw (tags_of-normalise n m)

    abbrev pub one_or : ℕ → ℕ
    one_or zero = 1
    one_or (suc n) = suc n

    divisor-one_or : (n : ℕ) → divisor fl (pos n) ≡ of_float (float_of_int (pos (one_or n)))
    unfolding divisor
    divisor-one_or zero = refl
    divisor-one_or (suc n) = ground arith

    dumped_tags :
        (expired : ℤ) (es : List Event)
        → recent_clicks expired es < 2 ^ 31
        → let m = embed (counted expired es []) in
          tags_of fl (normalise fl (divisor fl (total_click fl (pos 0) m)) m)
          ≡ shares (one_or (recent_clicks expired es)) (counted expired es [])
    unfolding total
    dumped_tags expired es h =
        let m = counted expired es [] in
        let all : 0 + total m ≡ recent_clicks expired es =
          omega (arith, total-counted expired es []) in
        ap (λ d. tags_of fl (normalise fl d (embed m)))
          (ap (divisor fl)
              (total_click-embed 0 m (omega (arith, total-counted expired es [])) ∙ ap pos all)
            ∙ divisor-one_or (recent_clicks expired es))
        ∙ tags_of-normalise (one_or (recent_clicks expired es)) m

    -- Dumping the table after that training writes one distribution, of all the categories that
    -- were clicked, in which each category has its number of clicks divided by the number of all
    -- the clicks in the time window (by 1 if there are none); for fewer than 2^31 such clicks, which
    -- an `int32_t` can count.
    pub dump_table-shares :
        {W : Type 0} (pr : Protocol Float) (write : Bytes → W → Status × W) (w : W) (window now : ℤ)
        (es : List Event) (s : NewsTrends Double)
        → let s0 = (train_before fl window now s).1 in
          let n = recent_clicks s0.click_expired es in
          n < 2 ^ 31
          → let written = pr.encode_distribution (record {
            user_id = 0;
            distribution = shares (one_or n) (counted s0.click_expired es []);
          }) in
            let out = dump_table fl pr write (replay (train_click fl) (λ i. succeed) es s0, w) in
            (out.0 ≡ (write written w).0) × (out.1.1 ≡ (write written w).1)
    unfolding dump_table train_before map_values total
    dump_table-shares pr write w window now es s h =
        let s0 = (train_before fl window now s).1 in
        let tags = dumped_tags s0.click_expired es h in
        let out = λ (ts : List (ItemTag Float)).
          write (pr.encode_distribution (record { user_id = 0; distribution = ts })) w in
        rw (replay-embed es [] s0 (omega arith))
          (ap (λ ts. (out ts).0) tags, ap (λ ts. (out ts).1) tags)
