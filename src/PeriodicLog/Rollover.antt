-- ===== src/PeriodicLog/Rollover.antt =====
-- What `PeriodicLog::rollover` does to the files of the log.
use content_based.Base.{◌≡◌, ◌≢◌, refl, ◌∙◌, true, some, List, [], ◌∷◌, arith, pos, ◌+ℤ◌}
use content_based.Status.{Status}
use content_based.Storage.{Bytes, LogFile, Storage, IsReliable}
use content_based.PeriodicLog.{PeriodicLog, rollover}
use content_based.PeriodicLog.Decimal.{sprintf_d}

module _ {W V : Type 0} (st : Storage W) (reliable : IsReliable st) where
  open st use {create, append, close, rename}
  open reliable use {
    records, create_ok, create_other, append_ok, append_other, close_records, rename_target,
    rename_source, rename_other,
  }

  -- The records of a log, and the name that it gets.
  module _ (p : PeriodicLog W V) (rs : List Bytes)
      (held : records LogFile.writing p.disk ≡ some rs) where
    -- The disk after each of the calls.
    abbrev renamed : W
    renamed = (rename LogFile.writing (LogFile.numbered p.last_counter) (close p.disk)).1

    abbrev created : W
    created = (create renamed).1

    abbrev header : Bytes
    header = sprintf_d p.last_counter

    abbrev appended : W
    appended = (append header created).1

    rollover-ok :
        (rollover st p).0 ≡ Status.ok
        → ((rename LogFile.writing (LogFile.numbered p.last_counter) (close p.disk)).0 ≡ true)
          × ((create renamed).0 ≡ Status.ok)
          × ((append header created).0 ≡ Status.ok)
          × ((rollover st p).1
              ≡ record p { last_counter = p.last_counter +ℤ pos 1; disk = appended })
    unfolding rollover
    rollover-ok h = ground arith

    -- A file other than the new log and the renamed one.
    other_file :
        (f : LogFile)
        → f ≢ LogFile.writing
        → f ≢ LogFile.numbered p.last_counter
        → records f appended ≡ records f p.disk
    other_file f a b =
        append_other header created f a
        ∙ create_other renamed f a
        ∙ rename_other (close p.disk) LogFile.writing (LogFile.numbered p.last_counter) f a b
        ∙ close_records p.disk f

    archived :
        (rename LogFile.writing (LogFile.numbered p.last_counter) (close p.disk)).0 ≡ true
        → records (LogFile.numbered p.last_counter) appended ≡ some rs
    archived h =
        append_other header created _ (λ e. cc)
        ∙ create_other renamed _ (λ e. cc)
        ∙ rename_target (close p.disk) LogFile.writing _ h
        ∙ close_records p.disk LogFile.writing
        ∙ held

    -- A rollover that succeeds moves the records to the file with the old counter, starts a new log
    -- whose only record is the old counter, and counts up; no other file changes.
    pub rollover_lem :
        (rollover st p).0 ≡ Status.ok
        → let q = (rollover st p).1 in
          (records (LogFile.numbered p.last_counter) q.disk ≡ some rs)
          × (records LogFile.writing q.disk ≡ some (header ∷ []))
          × (q.last_counter ≡ p.last_counter +ℤ pos 1)
          × ((f : LogFile)
              → f ≢ LogFile.writing
              → f ≢ LogFile.numbered p.last_counter
              → records f q.disk ≡ records f p.disk)
    unfolding rollover
    rollover_lem h =
        let (moved, made, wrote, e) = rollover-ok h in
        rw e (
          archived moved,
          append_ok header created [] (create_ok renamed made) wrote,
          refl,
          other_file,
        )
