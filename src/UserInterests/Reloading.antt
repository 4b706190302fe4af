-- ===== src/UserInterests/Reloading.antt =====
-- The long-term interests after a reload of the table file.
use content_based.Base.{
  ◌≡◌, ◌≢◌, refl, sym, ap, ◌∙◌, inl, inr, Option, none, some, List, [], ◌∷◌, map, if◌then◌else◌, ℕ,
  ℤ, ◌==◌, ◌==ℤ◌, arith, All, Option-cases,
}
use content_based.Status.{Status, Run, then_run, then_run-ok}
use content_based.Storage.{Bytes, Storage, readable}
use content_based.Floats.{Floats}
use content_based.Map.{Map, find, insert, int_key, nat_key}
use content_based.Map.Laws.{or_else, or_else-none, map_option, find-insert}
use content_based.Protocol.{ItemTag, CategoryDistribution, Protocol}
use content_based.PeriodicLog.{PeriodicLog}
use content_based.DistTable
use content_based.DistTable.{DistTable, load_records, on_table}
use content_based.NewsTrends.{load_tags}
use content_based.NewsTrends.Reloading.{IsKeptTable, IsParsedBack}
use content_based.UserInterests.{
  UserInterests, InterestOptions, IsUserKey, user_interests, load_distribution, reload_before,
  reload_completed, query_user_interests,
}
use content_based.UserInterests.Queries.{find-query_user_interests}

module _ (fl : Floats) (opts : InterestOptions fl.Float) where
  open fl use {Double, Float, of_float}

  abbrev pub Distribution : Type 0
  Distribution = CategoryDistribution Float

  -- The first distribution of a user.
  unfoldable pub first_of : ℕ → List Distribution → Option Distribution
  first_of u [] = none
  first_of u (d ∷ ds) = let rest = first_of u ds in if d.user_id == u then some d else rest

  -- The power of the first tag of a category.
  unfoldable pub first_power : ℤ → List (ItemTag Float) → Option Float
  first_power c [] = none
  first_power c (t ∷ ts) =
      let rest = first_power c ts in if t.tag_id ==ℤ c then some t.tag_power else rest

  find-load_tags :
      (c : ℤ) (ts : List (ItemTag Float)) (m : Map ℤ Double)
      → find c (load_tags fl ts m) ≡ or_else (find c m) (map_option of_float (first_power c ts))
  unfolding load_tags first_power
  find-load_tags c [] m = sym (or_else-none (find c m))
  find-load_tags c (t ∷ ts) m = ground (
    arith,
    find-load_tags c ts (insert t.tag_id (of_float t.tag_power) m),
    find-insert t.tag_id c (of_float t.tag_power) m,
  )

  abbrev loaded : Distribution → Map ℤ Double
  loaded d = load_tags fl d.distribution []

  module _ {W : Type 0} (st : Storage W) (kept : IsKeptTable st) (pr : Protocol Float)
      (back : IsParsedBack pr) (now : ℤ) where
    abbrev table : DistTable W (UserInterests Double) Float
    table = user_interests fl opts now

    -- One distribution with tags, and the records after it.
    load-one :
        (d : Distribution) (b : Bytes) (rs : List (Status × Bytes)) (s : UserInterests Double)
        → b ≡ pr.encode_distribution d
        → d.distribution ≢ []
        → load_records st pr table ((Status.ok, b) ∷ rs) s
          ≡ load_records st pr table rs
              (record s { user_dist_bak = insert d.user_id (loaded d) s.user_dist_bak })
    unfolding load_records user_interests load_distribution
    load-one d [] rs s e h = absurd (h (back.not_empty d (sym e)))
    load-one d (c ∷ cs) rs s e h = rw (ap pr.parse_distribution e ∙ back.parsed_back d) refl

    find-load_records :
        (u : ℕ) (ds : List Distribution) (s : UserInterests Double)
        → All (λ d. d.distribution ≢ []) ds
        → find u
            (load_records st pr table (readable (map pr.encode_distribution ds)) s).1.user_dist_bak
          ≡ or_else (find u s.user_dist_bak) (map_option loaded (first_of u ds))
    unfolding first_of load_records
    find-load_records u [] s h = sym (or_else-none (find u s.user_dist_bak))
    find-load_records u (d ∷ ds) s h =
        let s' = record s { user_dist_bak = insert d.user_id (loaded d) s.user_dist_bak } in
        ap (λ r. find u r.1.user_dist_bak)
          (load-one d (pr.encode_distribution d) (readable (map pr.encode_distribution ds)) s refl
            h.0)
        ∙ find-load_records u ds s' h.1
        ∙ ground (arith, find-insert d.user_id u (loaded d) s.user_dist_bak)

    user_dist-reload :
        (t : PeriodicLog W (UserInterests Double)) (u : ℕ) (ds : List Distribution)
        → All (λ d. d.distribution ≢ []) ds
        → kept.contents t.disk ≡ map pr.encode_distribution ds
        → (DistTable.reload st pr table t).0 ≡ Status.ok
        → find u (DistTable.reload st pr table t).1.target.user_dist
          ≡ map_option loaded (first_of u ds)
    unfolding DistTable.reload user_interests reload_before reload_completed find
    user_dist-reload t u ds h held ok =
        let before : UserInterests Double = record (t.target) { user_dist_bak = [] } in
        let opened : Status × PeriodicLog W (UserInterests Double) =
          (st.open_table t.disk, record t { target = before }) in
        let load : Run (PeriodicLog W (UserInterests Double)) =
          λ q. on_table st pr table (load_records st pr table (st.table_reads q.disk)) q in
        let completed : Run (PeriodicLog W (UserInterests Double)) =
          on_table st pr table (reload_completed fl opts) in
        let (loaded_ok, last) = then_run-ok (then_run opened load) completed ok in
        let (open_ok, first) = then_run-ok opened load loaded_ok in
        ap (λ q. find u q.1.target.user_dist) (last ∙ ap (λ q. completed q.1) first)
        ∙ ap (λ rs. find u (load_records st pr table rs before).1.user_dist_bak)
            (kept.read_back t.disk open_ok ∙ ap readable held)
        ∙ find-load_records u ds before h

    -- What is answered of a user, given the first distribution of the user.
    unfoldable pub IsLongTerm : ℤ → Option Distribution → Status × Map ℤ Double → Type 0
    IsLongTerm c none r = r ≡ (Status.not_found, [])
    IsLongTerm c (some d) r =
        (r.0 ≡ Status.ok) × (find c r.1 ≡ map_option of_float (first_power c d.distribution))

    -- If the table file holds distributions that all have tags, each of a user other than 0 and
    -- 2^64 - 1, then after a reload that succeeds the answer for the long-term interests of such a
    -- user holds just the categories of the user's first distribution, each with the power of its
    -- first tag there; of a user without distribution it is `not_found`, whatever was held before.
    -- A distribution is supposed to be parsed back from its bytes.
    pub query_user_interests-reload :
        (t : PeriodicLog W (UserInterests Double)) (u : ℕ) (c : ℤ) (ds : List Distribution)
        → IsUserKey u
        → All (λ d. IsUserKey d.user_id) ds
        → All (λ d. d.distribution ≢ []) ds
        → kept.contents t.disk ≡ map pr.encode_distribution ds
        → (DistTable.reload st pr table t).0 ≡ Status.ok
        → IsLongTerm c
            (first_of u ds)
            (query_user_interests fl opts u (DistTable.reload st pr table t).1.target)
    unfolding IsLongTerm find
    query_user_interests-reload t u c ds user users h held ok =
        let s = (DistTable.reload st pr table t).1.target in
        let e = user_dist-reload t u ds h held ok in
        let answer = find-query_user_interests fl opts u s c in
        elim (Option-cases (first_of u ds)) [
          | inl n ↦ rw n (answer.0 (e ∙ ap (map_option loaded) n))
          | inr (d, f) ↦
              let (ok', found) = answer.1 (loaded d) (e ∙ ap (map_option loaded) f) in
              rw f (ok', found ∙ find-load_tags c d.distribution [])
        ]
