-- ===== src/PeriodicLog/Restart.antt =====
-- A rollover followed by a restart of the process.
use content_based.Base.{ℕ, ◌≡◌, ap, subst, ◌∙◌, none, some, List, [], ◌∷◌, ℤ, pos, ◌+ℤ◌}
use content_based.Status.{Status}
use content_based.Storage.{Bytes, LogFile, Storage, IsReliable}
use content_based.PeriodicLog.{PeriodicLog, rollover, open_periodic}
use content_based.PeriodicLog.Decimal.{sprintf_d, atoi-sprintf_d, sprintf_d-starts_digit}
use content_based.PeriodicLog.Rollover.{rollover_lem}
use content_based.PeriodicLog.Recovery.{IsRecord, open_periodic-IsRecovered}

sprintf_d-IsRecord : (n : ℕ) → IsRecord (sprintf_d (pos n))
sprintf_d-IsRecord n = let (c, cs, e, _) = sprintf_d-starts_digit n in rw e (λ h. cc)

module _ {W V : Type 0} (st : Storage W) (reliable : IsReliable st) (visit : Bytes → V → V) where
  open reliable use {records}

  -- The log of a process with counter `n` has been rolled over, which took it to `n + 1`. A new
  -- process that opens the log goes on from `n`, and its first rollover replaces the archived file
  -- `n` by a log that holds nothing but a header, if each of these calls
  -- succeeds, and those of `flush` in them.
  pub restart_overwrites :
      (p s : PeriodicLog W V) (n : ℕ) (rs : List Bytes) (counter : ℤ)
      → p.last_counter ≡ pos n
      → records LogFile.writing p.disk ≡ some rs
      → records LogFile.recovering p.disk ≡ none
      → ((w : W) → (st.flush w).0 ≡ Status.ok)
      → (rollover st p).0 ≡ Status.ok
      → s.disk ≡ (rollover st p).1.disk
      → (open_periodic st counter (some visit) s).0 ≡ Status.ok
      → let r = (open_periodic st counter (some visit) s).1 in
        (rollover st r).0 ≡ Status.ok
        → ((rollover st p).1.last_counter ≡ pos n +ℤ pos 1)
          × (records (LogFile.numbered (pos n)) s.disk ≡ some rs)
          × (r.last_counter ≡ pos n)
          × (records (LogFile.numbered (pos n)) (rollover st r).1.disk
              ≡ some (sprintf_d (pos n) ∷ []))
  restart_overwrites p s n rs counter at held no_old flushes first same opened second =
      let (archived, fresh, up, others) = rollover_lem st reliable p rs held first in
      let new : records LogFile.writing s.disk ≡ some (sprintf_d (pos n) ∷ []) =
        rw (same, ← at) fresh in
      let again =
        open_periodic-IsRecovered st reliable visit counter (sprintf_d (pos n)) [] s
          (sprintf_d-IsRecord n, tt) flushes
          (ap (records LogFile.recovering) same
            ∙ others LogFile.recovering (λ e. cc) (λ e. cc)
            ∙ no_old)
          new opened in
      let r = (open_periodic st counter (some visit) s).1 in
      let back = again.counter ∙ atoi-sprintf_d n in
      (
        rw (← at) up,
        rw (← at, same) archived,
        back,
        subst
            (λ c.
              records (LogFile.numbered c) (rollover st r).1.disk ≡ some (sprintf_d (pos n) ∷ []))
            back (rollover_lem st reliable r _ again.copied second).0,
      )
