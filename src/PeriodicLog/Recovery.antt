-- ===== src/PeriodicLog/Recovery.antt =====
-- What `PeriodicLog::open` makes of a log that a process left behind.
use mathlib.Core.List.{append-nil, append_assoc}
use content_based.Base.{
  ◌≡◌, ◌≢◌, refl, sym, ap, ◌∙◌, inl, inr, Bool, true, false, none, some, List, [], ◌∷◌, ◌++◌,
  Bool-cases, ℤ, All,
}
use content_based.Status.{Status, then_run-ok, then_run_keeps, then_run_cases}
use content_based.Storage.{Bytes, LogFile, Storage, IsReliable, readable}
use content_based.PeriodicLog.{
  PeriodicLog, open_periodic, recover, recover_record, recovery, create_and_recover, start_recovery,
  finish_recovery, on_disk,
}
use content_based.PeriodicLog.Decimal.{atoi}

-- A record that a log can hold: an empty one would end every reading.
abbrev pub IsRecord : Bytes → Type 0
IsRecord d = d ≢ []

-- The visits of the records, in order.
abbrev pub visit_all {ℓ} : {V : Type ℓ} → (Bytes → V → V) → List Bytes → V → V
visit_all visit [] v = v
visit_all visit (d ∷ rs) v = visit_all visit rs (visit d v)

module _ {W V : Type 0} (st : Storage W) (reliable : IsReliable st) (visit : Bytes → V → V) where
  open st use {create, append_later, flush, rename, remove}
  open reliable use {
    records, create_other, accepted, create_accepted, append_later_ok, append_later_other, flush_ok,
    open_log_ok, reads_ok, rename_target, rename_source, rename_other, remove_ok, remove_other,
    exists_some, exists_none,
  }

  -- The loop of `recovery`, after the header: if it ends well, every record was visited, in order,
  -- and was accepted by the writer of the new log.
  recover_rest :
      (rs out : List Bytes) (p : PeriodicLog W V)
      → All IsRecord rs
      → accepted p.disk ≡ some out
      → (recover st (some visit) false (readable rs) p).0 ≡ Status.ok
      → let q = (recover st (some visit) false (readable rs) p).1 in
        (q.target ≡ visit_all visit rs p.target)
        × (q.last_counter ≡ p.last_counter)
        × (accepted q.disk ≡ some (out ++ rs))
  unfolding recover recover_record
  recover_rest [] out p r e h = (refl, refl, rw (append-nil out) e)
  recover_rest ([] ∷ rs) out p r e h = absurd (r.0 refl)
  recover_rest ((c ∷ cs) ∷ rs) out p r e h =
      let d : Bytes = c ∷ cs in
      let q = record p { target = visit d p.target; disk = (append_later d p.disk).1 } in
      let (wrote, later) =
        then_run-ok (on_disk st (append_later d) (record p { target = visit d p.target }))
          (recover st (some visit) false (readable rs)) h in
      rw (later, ← append_assoc out (d ∷ []) rs)
        (recover_rest rs (out ++ d ∷ []) q r.1 (append_later_ok d p.disk out e wrote)
          (sym (ap (λ s. s.0) later) ∙ h))

  -- The same with the header, which sets the counter.
  recover_header :
      (d : Bytes) (rs : List Bytes) (p : PeriodicLog W V)
      → All IsRecord (d ∷ rs)
      → accepted p.disk ≡ some []
      → (recover st (some visit) true (readable (d ∷ rs)) p).0 ≡ Status.ok
      → let q = (recover st (some visit) true (readable (d ∷ rs)) p).1 in
        (q.target ≡ visit_all visit rs p.target)
        × (q.last_counter ≡ atoi d)
        × (accepted q.disk ≡ some (d ∷ rs))
  unfolding recover recover_record
  recover_header [] rs p r e h = absurd (r.0 refl)
  recover_header (c ∷ cs) rs p r e h =
      let d : Bytes = c ∷ cs in
      let q = record p { last_counter = atoi d; disk = (append_later d p.disk).1 } in
      let (wrote, later) =
        then_run-ok (on_disk st (append_later d) (record p { last_counter = atoi d }))
          (recover st (some visit) false (readable rs)) h in
      rw later (
        recover_rest rs (d ∷ []) q r.1 (append_later_ok d p.disk [] e wrote)
          (sym (ap (λ s. s.0) later) ∙ h))

  -- Nothing in the loop touches another file.
  recover_other :
      (f : LogFile) (first : Bool) (rs : List Bytes) (p : PeriodicLog W V)
      → f ≢ LogFile.writing
      → records f (recover st (some visit) first (readable rs) p).1.disk ≡ records f p.disk
  unfolding recover recover_record
  recover_other f first [] p h = refl
  recover_other f first ([] ∷ rs) p h = refl
  recover_other f true ((c ∷ cs) ∷ rs) p h =
      then_run_keeps (λ q. records f q.disk ≡ records f p.disk)
        (on_disk st (append_later (c ∷ cs)) (record p { last_counter = atoi (c ∷ cs) }))
        (recover st (some visit) false (readable rs)) (append_later_other (c ∷ cs) p.disk f h)
        (λ e. recover_other f false rs _ h ∙ e)
  recover_other f false ((c ∷ cs) ∷ rs) p h =
      then_run_keeps (λ q. records f q.disk ≡ records f p.disk)
        (on_disk st (append_later (c ∷ cs)) (record p { target = visit (c ∷ cs) p.target }))
        (recover st (some visit) false (readable rs)) (append_later_other (c ∷ cs) p.disk f h)
        (λ e. recover_other f false rs _ h ∙ e)

  -- What a process that left the log `d ∷ rs` behind finds when it starts again.
  pub record IsRecovered (d : Bytes) (rs : List Bytes) (v : V) (q : PeriodicLog W V) : Type 0 where
    pub visited : q.target ≡ visit_all visit rs v
    pub counter : q.last_counter ≡ atoi d
    pub copied : records LogFile.writing q.disk ≡ some (d ∷ rs)

  finish_recovery-IsRecovered :
      (d : Bytes) (rs : List Bytes) (v : V) (q : PeriodicLog W V)
      → q.target ≡ visit_all visit rs v
      → q.last_counter ≡ atoi d
      → accepted q.disk ≡ some (d ∷ rs)
      → (flush q.disk).0 ≡ Status.ok
      → IsRecovered d rs v (finish_recovery st LogFile.recovering q).1
  unfolding finish_recovery
  finish_recovery-IsRecovered d rs v q visited counter held flushed = record {
    visited = visited;
    counter = counter;
    copied =
        remove_other (flush q.disk).1 LogFile.recovering LogFile.writing (λ e. cc)
        ∙ flush_ok q.disk (d ∷ rs) held flushed;
  }

  recovery-IsRecovered :
      (d : Bytes) (rs : List Bytes) (p : PeriodicLog W V)
      → All IsRecord (d ∷ rs)
      → ((w : W) → (flush w).0 ≡ Status.ok)
      → records LogFile.recovering p.disk ≡ some (d ∷ rs)
      → accepted p.disk ≡ some []
      → (recovery st LogFile.recovering (some visit) p).0 ≡ Status.ok
      → IsRecovered d rs p.target (recovery st LogFile.recovering (some visit) p).1
  unfolding recovery
  recovery-IsRecovered d rs p r flushes old new =
      rw
        (
          open_log_ok p.disk LogFile.recovering (d ∷ rs) old,
          reads_ok p.disk LogFile.recovering (d ∷ rs) old,
        )
        λ h.
          let (read, later) =
            then_run-ok (recover st (some visit) true (readable (d ∷ rs)) p)
              (finish_recovery st LogFile.recovering) h in
          let (v, c, w) = recover_header d rs p r new read in
          rw later (finish_recovery-IsRecovered d rs p.target _ v c w (flushes _))

  create_and_recover-IsRecovered :
      (d : Bytes) (rs : List Bytes) (p : PeriodicLog W V)
      → All IsRecord (d ∷ rs)
      → ((w : W) → (flush w).0 ≡ Status.ok)
      → records LogFile.recovering p.disk ≡ some (d ∷ rs)
      → (create_and_recover st (some visit) p).0 ≡ Status.ok
      → IsRecovered d rs p.target (create_and_recover st (some visit) p).1
  unfolding create_and_recover
  create_and_recover-IsRecovered d rs p r flushes old h =
      let (made, later) =
        then_run-ok (on_disk st create p) (recovery st LogFile.recovering (some visit)) h in
      rw later (
        recovery-IsRecovered d rs (record p { disk = (create p.disk).1 }) r flushes
          (create_other p.disk LogFile.recovering (λ e. cc) ∙ old) (create_accepted p.disk made)
          (sym (ap (λ s. s.0) later) ∙ h))

  -- Opening the log of a process that stopped while it wrote `d ∷ rs`: if `open` succeeds, and no
  -- `flush` of the writer fails, whose status `recovery` drops, the
  -- visitor saw every record after the header, once and in order, the counter is the header's, and
  -- the new log holds the same records.
  pub open_periodic-IsRecovered :
      (counter : ℤ) (d : Bytes) (rs : List Bytes) (p : PeriodicLog W V)
      → All IsRecord (d ∷ rs)
      → ((w : W) → (flush w).0 ≡ Status.ok)
      → records LogFile.recovering p.disk ≡ none
      → records LogFile.writing p.disk ≡ some (d ∷ rs)
      → (open_periodic st counter (some visit) p).0 ≡ Status.ok
      → IsRecovered d rs p.target (open_periodic st counter (some visit) p).1
  unfolding open_periodic start_recovery
  open_periodic-IsRecovered counter d rs p r flushes no_old old =
      rw
        (
          exists_none p.disk LogFile.recovering no_old,
          exists_some p.disk LogFile.writing (d ∷ rs) old,
        )
        (elim (Bool-cases (rename LogFile.writing LogFile.recovering p.disk).0) [
          | inl moved ↦ rw moved (
              create_and_recover-IsRecovered d rs _ r flushes
                (rename_target p.disk LogFile.writing LogFile.recovering moved ∙ old))
          | inr stuck ↦ rw stuck (λ h. cc)
        ])

  -- The same where an earlier recovery of `d ∷ rs` was cut short, whatever it had copied: again no
  -- `flush` of the writer may fail.
  pub open_periodic_again-IsRecovered :
      (counter : ℤ) (d : Bytes) (rs : List Bytes) (p : PeriodicLog W V)
      → All IsRecord (d ∷ rs)
      → ((w : W) → (flush w).0 ≡ Status.ok)
      → records LogFile.recovering p.disk ≡ some (d ∷ rs)
      → (open_periodic st counter (some visit) p).0 ≡ Status.ok
      → IsRecovered d rs p.target (open_periodic st counter (some visit) p).1
  unfolding open_periodic
  open_periodic_again-IsRecovered counter d rs p r flushes old =
      rw (exists_some p.disk LogFile.recovering (d ∷ rs) old)
        (create_and_recover-IsRecovered d rs _ r flushes old)

  recovery-failed :
      (rs : List Bytes) (p : PeriodicLog W V)
      → records LogFile.recovering p.disk ≡ some rs
      → (recovery st LogFile.recovering (some visit) p).0 ≢ Status.ok
      → records LogFile.recovering (recovery st LogFile.recovering (some visit) p).1.disk ≡ some rs
  unfolding recovery finish_recovery
  recovery-failed rs p old =
      rw (open_log_ok p.disk LogFile.recovering rs old, reads_ok p.disk LogFile.recovering rs old)
        (elim (then_run_cases read (finish_recovery st LogFile.recovering)) [
          | inl e ↦ λ h. rw e (recover_other LogFile.recovering true rs p (λ x. cc) ∙ old)
          | inr (e, later) ↦ λ h. absurd (h (ap (λ s. s.0) later))
        ])
    where
      read : Status × PeriodicLog W V
      read = recover st (some visit) true (readable rs) p

  -- Where an earlier recovery was cut short, an `open` that fails leaves the log that was to be
  -- recovered, whole, for the next attempt.
  pub open_periodic_failed :
      (counter : ℤ) (rs : List Bytes) (p : PeriodicLog W V)
      → records LogFile.recovering p.disk ≡ some rs
      → (open_periodic st counter (some visit) p).0 ≢ Status.ok
      → records LogFile.recovering (open_periodic st counter (some visit) p).1.disk ≡ some rs
  unfolding open_periodic create_and_recover
  open_periodic_failed counter rs p old =
      rw (exists_some p.disk LogFile.recovering rs old)
        (elim (then_run_cases start (recovery st LogFile.recovering (some visit))) [
          | inl e ↦ λ h. rw e kept
          | inr (e, later) ↦ rw later (recovery-failed rs start.1 kept)
        ])
    where
      start : Status × PeriodicLog W V
      start = on_disk st create (record p { last_counter = counter; has_writer = true })

      kept : records LogFile.recovering start.1.disk ≡ some rs
      kept = create_other p.disk LogFile.recovering (λ x. cc) ∙ old
