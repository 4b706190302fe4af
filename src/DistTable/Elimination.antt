-- ===== src/DistTable/Elimination.antt =====
-- Which log files `DistTable::eliminate` takes back.
use content_based.Base.{
  ◌≡◌, refl, ap, true, false, arith, ℕ, zero, suc, ℤ, pos, pos_part, ltb_ℤ, ◌-ℤ◌, ◌+ℤ◌, int_laws,
  lt→ltb, neg_part, ◌+◌, ◌≤◌, +ℤ_parts, -ℤ_parts, eq_of_parts,
}
use content_based.Status.{Status}
use content_based.Storage.{Storage}
use content_based.Protocol.{Protocol}
use content_based.PeriodicLog.{PeriodicLog, Iterator, next, get_iterator}
use content_based.DistTable.{DistTable, eliminate_file, eliminate_files, eliminate_periodic_log}

-- The test that the derived classes make, or a stricter one: a file is eliminated only once it is
-- at least the time window older than the newest.
abbrev pub KeepsWindow : {W S F : Type 0} → DistTable W S F → Type 0
KeepsWindow {S} dt =
    (s : S) (last counter : ℤ)
    → ltb_ℤ (last -ℤ counter) dt.time_window_size ≡ true
    → dt.need_eliminate s last counter ≡ false

young_file :
    (last counter window : ℤ) (passed j : ℕ)
    → last ≡ counter +ℤ pos passed
    → passed + suc j ≤ pos_part window
    → ltb_ℤ (last -ℤ counter) window ≡ true
young_file last counter window passed j e h = lt→ltb _ _ (
    ground
      (arith, ap pos_part e, ap neg_part e, +ℤ_parts counter (pos passed), -ℤ_parts last counter))

next_file :
    (last counter : ℤ) (passed : ℕ)
    → last ≡ counter +ℤ pos passed
    → last ≡ counter -ℤ pos 1 +ℤ pos (suc passed)
next_file last counter passed e = eq_of_parts _ _ (
    omega (
      arith,
      ap pos_part e,
      ap neg_part e,
      +ℤ_parts counter (pos passed),
      -ℤ_parts counter (pos 1),
      +ℤ_parts (counter -ℤ pos 1) (pos (suc passed)),
    ))

module _ {W S F : Type 0} (st : Storage W) (pr : Protocol F) (dt : DistTable W S F)
    (keeps : KeepsWindow dt) where
  eliminate_file-skips :
      (it : Iterator) (t : PeriodicLog W S)
      → ltb_ℤ (it.last_counter -ℤ it.counter) dt.time_window_size ≡ true
      → eliminate_file st pr dt it t ≡ (Status.ok, t)
  unfolding eliminate_file
  eliminate_file-skips it t h = ground (arith, keeps t.target it.last_counter it.counter h)

  -- The rounds left and the files passed add up to the window, so no file is old enough.
  eliminate_files-skips :
      (j passed : ℕ) (it : Iterator) (t : PeriodicLog W S)
      → it.last_counter ≡ it.counter +ℤ pos passed
      → passed + j ≤ pos_part dt.time_window_size
      → eliminate_files st pr dt j it t ≡ (Status.ok, t)
  unfolding eliminate_files next
  eliminate_files-skips zero passed it t e h = refl
  eliminate_files-skips (suc j) passed it t e h =
      let young : ltb_ℤ (it.last_counter -ℤ it.counter) dt.time_window_size ≡ true =
        young_file it.last_counter it.counter dt.time_window_size passed j e h in
      rw (eliminate_file-skips it t young) (
        rw
          (eliminate_files-skips j (suc passed) (next it) t
            (next_file it.last_counter it.counter passed e) (omega arith))
          (ground arith))

  -- For a table that keeps its younger files, no file that the loop visits is old enough: it goes
  -- back over less than the time window, so `eliminatePeriodicLog` neither reads nor removes a file,
  -- and changes nothing at all.
  pub eliminate_periodic_log_idle :
      (t : PeriodicLog W S) → eliminate_periodic_log st pr dt t ≡ (Status.ok, t)
  unfolding eliminate_periodic_log get_iterator
  eliminate_periodic_log_idle t =
      eliminate_files-skips (pos_part dt.time_window_size) 0 (get_iterator t) t
        (eq_of_parts _ _ (omega int_laws)) (omega arith)
