-- ===== src/NewsTrends/Reloading.antt =====
-- The news trends that were trained, as the next reload finds them in the table file.
use content_based.Base.{
  ◌≡◌, refl, sym, ap, ◌∙◌, subst, inl, inr, true, some, List, [], ◌∷◌, ◌++◌, ℤ, Bool-cases,
}
use content_based.Status.{Status, Run, then_run, then_run-ok}
use content_based.Storage.{Bytes, Storage, readable}
use content_based.Floats.{Floats}
use content_based.Map.{Map, find, insert, insert_all, int_key}
use content_based.Map.Laws.{map_option, map_values, find-map_values, find-insert_all}
use content_based.Protocol.{CategoryDistribution, Protocol}
use content_based.PeriodicLog.{PeriodicLog}
use content_based.DistTable
use content_based.DistTable.{
  DistTable, train_periodic_log, load_records, replace_table, on_table, on_files, dump,
}
use content_based.NewsTrends.{
  NewsTrends, load_tags, tags_of, news_trends, load_distribution, reload_before, swap_maps,
  dump_table,
}

-- What is relied on of the table file: the records that it and the temporary file hold.
pub record IsKeptTable {W : Type 0} (st : Storage W) : Type 0 where
  pub contents : W → List Bytes
  pub temporary : W → List Bytes
  pub created : (w : W) → (st.create_table w).0 ≡ Status.ok → temporary (st.create_table w).1 ≡ []
  pub written :
      (b : Bytes) (w : W)
      → (st.write_table b w).0 ≡ Status.ok
      → temporary (st.write_table b w).1 ≡ temporary w ++ b ∷ []
  pub closed : (w : W) → temporary (st.close_table w) ≡ temporary w
  pub renamed :
      (w : W) → (st.rename_table w).0 ≡ true → contents (st.rename_table w).1 ≡ temporary w
  pub read_back : (w : W) → st.open_table w ≡ Status.ok → st.table_reads w ≡ readable (contents w)

-- A distribution that was serialised is parsed back; only an empty one gives no bytes.
pub record IsParsedBack {F : Type 0} (pr : Protocol F) : Type 0 where
  pub parsed_back :
      (d : CategoryDistribution F) → pr.parse_distribution (pr.encode_distribution d) ≡ some d
  pub not_empty : (d : CategoryDistribution F) → pr.encode_distribution d ≡ [] → d.distribution ≡ []

module _ (fl : Floats) where
  open fl use {Double, Float, of_float, to_float}

  -- What a weight is after it was written as a `float`.
  abbrev pub as_float : Double → Double
  as_float v = of_float (to_float v)

  load_tags-tags_of :
      (m acc : Map ℤ Double)
      → load_tags fl (tags_of fl m) acc ≡ insert_all (map_values as_float m) acc
  unfolding load_tags tags_of insert_all map_values
  load_tags-tags_of [] acc = refl
  load_tags-tags_of ((c, v) ∷ m) acc = load_tags-tags_of m (insert c (as_float v) acc)

  find-load_tags :
      (c : ℤ) (m : Map ℤ Double)
      → find c (load_tags fl (tags_of fl m) []) ≡ map_option as_float (find c m)
  unfolding find
  find-load_tags c m =
      ap (find c) (load_tags-tags_of m [])
      ∙ find-insert_all c (map_values as_float m) []
      ∙ find-map_values as_float c m

  module _ {W : Type 0} (st : Storage W) (kept : IsKeptTable st) (pr : Protocol Float)
      (back : IsParsedBack pr) (window now : ℤ) where
    abbrev table : DistTable W (NewsTrends Double) Float
    table = news_trends fl pr window now

    -- The table file holds the trends.
    abbrev Holds : PeriodicLog W (NewsTrends Double) → Type 0
    Holds t =
        kept.contents t.disk
        ≡ pr.encode_distribution
            (record { user_id = 0; distribution = tags_of fl t.target.map_dist })
          ∷ []

    load_one :
        (m : Map ℤ Double) (b : Bytes) (s : NewsTrends Double)
        → b ≡ pr.encode_distribution (record { user_id = 0; distribution = tags_of fl m })
        → s.map_dist_training ≡ []
        → (load_records st pr table (readable (b ∷ [])) s).1.map_dist_training
          ≡ load_tags fl (tags_of fl m) []
    unfolding load_records news_trends load_distribution load_tags
    load_one m [] s e h = h ∙ ap (λ ts. load_tags fl ts []) (sym (back.not_empty _ (sym e)))
    load_one m (c ∷ cs) s e h =
        rw
          (ap pr.parse_distribution e
            ∙ back.parsed_back (record { user_id = 0; distribution = tags_of fl m }))
          (ap (load_tags fl (tags_of fl m)) h)

    reload-Holds :
        (t : PeriodicLog W (NewsTrends Double)) (c : ℤ)
        → Holds t
        → (DistTable.reload st pr table t).0 ≡ Status.ok
        → find c (DistTable.reload st pr table t).1.target.map_dist
          ≡ map_option as_float (find c t.target.map_dist)
    unfolding DistTable.reload news_trends reload_before swap_maps
    reload-Holds t c held ok =
        let before : NewsTrends Double = record (t.target) { map_dist_training = [] } in
        let opened : Status × PeriodicLog W (NewsTrends Double) =
          (st.open_table t.disk, record t { target = before }) in
        let load : Run (PeriodicLog W (NewsTrends Double)) =
          λ q. on_table st pr table (load_records st pr table (st.table_reads q.disk)) q in
        let completed : Run (PeriodicLog W (NewsTrends Double)) =
          on_table st pr table (swap_maps fl) in
        let (loaded, last) = then_run-ok (then_run opened load) completed ok in
        let (open_ok, first) = then_run-ok opened load loaded in
        ap (λ q. find c q.1.target.map_dist) (last ∙ ap (λ q. completed q.1) first)
        ∙ ap (λ rs. find c (load_records st pr table rs before).1.map_dist_training)
            (kept.read_back t.disk open_ok ∙ ap readable held)
        ∙ ap (find c) (load_one t.target.map_dist _ before refl refl)
        ∙ find-load_tags c t.target.map_dist

    -- The parts of `train`, from where the files were read.
    abbrev create : Run (PeriodicLog W (NewsTrends Double))
    create = on_files st pr table st.create_table

    abbrev finish : Run (PeriodicLog W (NewsTrends Double))
    finish t = (Status.ok, record t { disk = st.close_table t.disk })

    abbrev complete : Run (PeriodicLog W (NewsTrends Double))
    complete = on_table st pr table table.train_completed

    abbrev replace : Run (PeriodicLog W (NewsTrends Double))
    replace = on_files st pr table (replace_table st pr table)

    renamed_ok :
        (w : W) → (replace_table st pr table w).0 ≡ Status.ok → (st.rename_table w).0 ≡ true
    unfolding replace_table
    renamed_ok w = elim (Bool-cases (st.rename_table w).0) [
      | inl e ↦ rw (replace_table, e) λ ok. refl
      | inr e ↦ rw (replace_table, e) λ ok. absurd (not_ok ok)
    ]
      where
        not_ok : Status.io_error ≡ Status.ok → ⊥
        not_ok e = cc

    replace-Holds :
        (t : PeriodicLog W (NewsTrends Double))
        → (create t).0 ≡ Status.ok
        → (dump st pr table (create t).1).0 ≡ Status.ok
        → (replace (complete (finish (dump st pr table (create t).1).1).1).1).0 ≡ Status.ok
        → Holds (replace (complete (finish (dump st pr table (create t).1).1).1).1).1
    unfolding dump news_trends dump_table swap_maps replace_table
    replace-Holds t created written replaced =
        let m = (complete (dump st pr table (create t).1).1).1.target.map_dist in
        let encoded =
          pr.encode_distribution (record { user_id = 0; distribution = tags_of fl m }) in
        kept.renamed _ (renamed_ok _ replaced)
        ∙ kept.closed _
        ∙ kept.written _ _ written
        ∙ ap (λ l. l ++ encoded ∷ []) (kept.created t.disk created)

    train-Holds :
        (t : PeriodicLog W (NewsTrends Double))
        → (DistTable.train st pr table t).0 ≡ Status.ok
        → Holds (DistTable.train st pr table t).1
    unfolding DistTable.train
    train-Holds t ok =
        let p0 =
          then_run (on_table st pr table table.train_before t) (train_periodic_log st pr table) in
        let p1 = then_run p0 create in
        let p2 = then_run p1 (dump st pr table) in
        let p3 = then_run p2 finish in
        let p4 = then_run p3 complete in
        let (k4, e5) = then_run-ok p4 replace ok in
        let (k3, e4) = then_run-ok p3 complete k4 in
        let (k2, e3) = then_run-ok p2 finish k3 in
        let (k1, e2) = then_run-ok p1 (dump st pr table) k2 in
        let (k0, e1) = then_run-ok p0 create k1 in
        let whole =
          e5
          ∙ ap (λ p. replace p.1)
              (e4
                ∙ ap (λ p. complete p.1)
                    (e3 ∙ ap (λ p. finish p.1) (e2 ∙ ap (λ p. dump st pr table p.1) e1))) in
        subst (λ q. Holds q.1) (sym whole)
          (replace-Holds p0.1 (sym (ap (λ p. p.0) e1) ∙ k1)
            (sym (ap (λ p. p.0) (e2 ∙ ap (λ p. dump st pr table p.1) e1)) ∙ k2)
            (sym (ap (λ p. p.0) whole) ∙ ok))

    -- If training succeeds, and a reload after it does, then the trends that are answered are those
    -- that were trained, each weight as it is when it is written as a `float`: whatever the files
    -- held, a category has a trend after the reload exactly if it had one after the training. The
    -- table file is supposed to give back what was written to it, and the bytes of a distribution to
    -- be parsed back.
    pub reload-train :
        (t : PeriodicLog W (NewsTrends Double)) (c : ℤ)
        → (DistTable.train st pr table t).0 ≡ Status.ok
        → (DistTable.reload st pr table (DistTable.train st pr table t).1).0 ≡ Status.ok
        → find c (DistTable.reload st pr table (DistTable.train st pr table t).1).1.target.map_dist
          ≡ map_option as_float (find c (DistTable.train st pr table t).1.target.map_dist)
    reload-train t c trained reloaded =
        reload-Holds (DistTable.train st pr table t).1 c (train-Holds t trained) reloaded
