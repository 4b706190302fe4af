-- ===== src/DistTable/Window.antt =====
-- A table that is told events for several periods, and then trained from the files of these.
use content_based.Base.{
  ◌≡◌, ◌≢◌, refl, sym, ap, ◌∙◌, true, false, Option, none, some, List, [], ◌∷◌, ◌<◌, arith, ℕ, zero,
  suc, ℤ, pos, ◌+ℤ◌, ◌-ℤ◌, length, take, pos_part, leb_ℤ,
}
use content_based.Status.{Status, Run, then_run, then_run-ok, then_run_keeps}
use content_based.Storage.{Bytes, LogFile, Storage, IsReliable}
use content_based.Protocol.{CategoryClick, CategoryItem, Protocol, IsRoundTrip}
use content_based.PeriodicLog.{PeriodicLog, Iterator, next, get_iterator, write}
use content_based.PeriodicLog.Decimal.{sprintf_d}
use content_based.PeriodicLog.Rollover.{rollover_lem}
use content_based.DistTable.{
  DistTable, log_type_click, log_type_item, train_files, train_periodic_log, rollover, add_click,
  add_item, log_message,
}
use content_based.DistTable.Logging.{
  Event, clicked, listed, replay, add_event, add_events, HoldAll, add_events-IsLogged,
  train_file-replay,
}

-- The events of several periods handed to the methods of a table, one period after the other.
unfoldable pub replay_files :
    {S : Type 0} → (CategoryClick → Run S) → (CategoryItem → Run S) → List (List Event) → S → S
replay_files clickf itemf [] s = s
replay_files clickf itemf (es ∷ files) s =
    replay_files clickf itemf files (replay clickf itemf es s)

module _ {W S F : Type 0} (st : Storage W) (pr : Protocol F) (dt : DistTable W S F) where
  -- The events of a period are added, and then the log is rolled over.
  unfoldable pub run_period : List Event → Run (PeriodicLog W S)
  run_period es t = then_run (add_events st pr dt es t) (rollover st pr dt)

  unfoldable pub run_periods : List (List Event) → Run (PeriodicLog W S)
  run_periods [] t = (Status.ok, t)
  run_periods (es ∷ periods) t = then_run (run_period es t) (run_periods periods)

-- The periods with the last one first.
unfoldable pub newest_first : List (List Event) → List (List Event) → List (List Event)
newest_first [] files = files
newest_first (es ∷ periods) files = newest_first periods (es ∷ files)

suc_pos : (n : ℕ) → pos n +ℤ pos 1 ≡ pos (suc n)
unfolding ◌+ℤ◌
suc_pos n = ground arith

pred_pos : (n : ℕ) → pos (suc n) -ℤ pos 1 ≡ pos n
unfolding ◌-ℤ◌
pred_pos n = ground arith

leb_pos : (n : ℕ) → leb_ℤ (pos 0) (pos n) ≡ true
leb_pos n = ground arith

abbrev number : LogFile → ℕ
number (LogFile.numbered c) = pos_part c
number _ = 0

module _ {W S F : Type 0} (st : Storage W) (reliable : IsReliable st) (pr : Protocol F)
    (dt : DistTable W S F) where
  open reliable use {records, append_other}

  -- The numbered files hold the events of the periods, of which the last one comes first.
  abbrev IsArchived : List (List Event) → W → Type 0
  IsArchived [] w = Unit
  IsArchived (es ∷ older) w =
      ((d : Bytes) × (rs : List Bytes) × (records (LogFile.numbered (pos (length older))) w
          ≡ some (d ∷ rs))
        × HoldAll pr rs es)
      × IsArchived older w

  IsArchived-other :
      (files : List (List Event)) (w w' : W)
      → ((n : ℕ)
          → n < length files
          → records (LogFile.numbered (pos n)) w' ≡ records (LogFile.numbered (pos n)) w)
      → IsArchived files w
      → IsArchived files w'
  IsArchived-other [] w w' same h = tt
  IsArchived-other (es ∷ older) w w' same ((d, rs, e, held), h) = (
    (d, rs, same (length older) (omega arith) ∙ e, held),
    IsArchived-other older w w' (λ n lt. same n (omega arith)) h,
  )

  log_message-other :
      (f : LogFile) (k : ℕ) (m : Option Bytes) (t : PeriodicLog W S)
      → f ≢ LogFile.writing
      → records f (log_message st pr dt k m t).1.disk ≡ records f t.disk
  unfolding log_message write
  log_message-other f k none t h = refl
  log_message-other f k (some b) t h = append_other (k ∷ b) t.disk f h

  add_event-other :
      (f : LogFile) (e : Event) (t : PeriodicLog W S)
      → f ≢ LogFile.writing
      → records f (add_event st pr dt e t).1.disk ≡ records f t.disk
  unfolding add_event add_click add_item
  add_event-other f (clicked c) t h = log_message-other f log_type_click (pr.encode_click c) t h
  add_event-other f (listed i) t h = log_message-other f log_type_item (pr.encode_item i) t h

  add_events-other :
      (f : LogFile) (es : List Event) (t : PeriodicLog W S)
      → f ≢ LogFile.writing
      → records f (add_events st pr dt es t).1.disk ≡ records f t.disk
  unfolding add_events
  add_events-other f [] t h = refl
  add_events-other f (e ∷ es) t h =
      then_run_keeps (λ q. records f q.disk ≡ records f t.disk) (add_event st pr dt e t)
        (add_events st pr dt es) (add_event-other f e t h)
        (λ same. add_events-other f es (add_event st pr dt e t).1 h ∙ same)

  -- A table that has archived the periods.
  record IsRolling (files : List (List Event)) (t : PeriodicLog W S) : Type 0 where
    counter : t.last_counter ≡ pos (length files)
    archived : IsArchived files t.disk
    current : (d : Bytes) × (records LogFile.writing t.disk ≡ some (d ∷ []))

  run_period-IsRolling :
      (es : List Event) (files : List (List Event)) (t : PeriodicLog W S)
      → IsRolling files t
      → (run_period st pr dt es t).0 ≡ Status.ok
      → IsRolling (es ∷ files) (run_period st pr dt es t).1
  unfolding run_period rollover
  run_period-IsRolling es files t h ok =
      let (d, held) = h.current in
      let (first, later) = then_run-ok (add_events st pr dt es t) (rollover st pr dt) ok in
      let p = (add_events st pr dt es t).1 in
      let logged = add_events-IsLogged st reliable pr dt es (d ∷ []) t held first in
      let (archived, fresh, up, others) =
        rollover_lem st reliable p (d ∷ logged.added) logged.written
          (sym (ap (λ r. r.0) later) ∙ ok) in
      let at : p.last_counter ≡ pos (length files) = logged.same_counter ∙ h.counter in
      rw later (record {
        counter = up ∙ ap (λ c. c +ℤ pos 1) at ∙ suc_pos (length files);
        archived = (
          (
            d,
            logged.added,
            ap (λ c. records (LogFile.numbered c) (rollover st pr dt p).1.disk) (sym at) ∙ archived,
            logged.held,
          ),
          IsArchived-other files t.disk _
              (λ n lt.
                others (LogFile.numbered (pos n)) (λ e. cc) (not_last p.last_counter n files at lt)
                ∙ add_events-other (LogFile.numbered (pos n)) es t (λ e. cc))
              h.archived,
        );
        current = (sprintf_d p.last_counter, fresh);
      })
    where
      not_last :
          (c : ℤ) (n : ℕ) (files : List (List Event))
          → c ≡ pos (length files)
          → n < length files
          → LogFile.numbered (pos n) ≢ LogFile.numbered c
      not_last c n files at lt e =
          let same : n ≡ length files = ap number (e ∙ ap LogFile.numbered at) in omega arith

  run_periods-IsRolling :
      (periods files : List (List Event)) (t : PeriodicLog W S)
      → IsRolling files t
      → (run_periods st pr dt periods t).0 ≡ Status.ok
      → IsRolling (newest_first periods files) (run_periods st pr dt periods t).1
  unfolding run_periods newest_first
  run_periods-IsRolling [] files t h ok = h
  run_periods-IsRolling (es ∷ periods) files t h ok =
      let (first, later) =
        then_run-ok (run_period st pr dt es t) (run_periods st pr dt periods) ok in
      rw later (
        run_periods-IsRolling periods (es ∷ files) (run_period st pr dt es t).1
          (run_period-IsRolling es files t h first) (sym (ap (λ r. r.0) later) ∙ ok))

  module _ (back : IsRoundTrip pr) where
    train_files-replay :
        (j : ℕ) (files : List (List Event)) (it : Iterator) (t : PeriodicLog W S)
        → IsArchived files t.disk
        → it.counter ≡ pos (length files) -ℤ pos 1
        → train_files st pr dt j it t
          ≡ record t { target = replay_files dt.train_click dt.train_item (take j files) t.target }
    unfolding train_files replay_files next ◌-ℤ◌
    train_files-replay zero files it t h e = refl
    train_files-replay (suc j) [] it t h e =
        let before : leb_ℤ (pos 0) it.counter ≡ false = ap (leb_ℤ (pos 0)) e in rw before
    train_files-replay (suc j) (es ∷ older) it t ((d, rs, at, held), h) e =
        let c : it.counter ≡ pos (length older) = e ∙ pred_pos (length older) in
        let there : leb_ℤ (pos 0) it.counter ≡ true =
          ap (leb_ℤ (pos 0)) c ∙ leb_pos (length older) in
        let trained =
          train_file-replay st reliable pr dt back it t d rs es
            (ap (λ n. records (LogFile.numbered n) t.disk) c ∙ at) held in
        rw there (rw trained (train_files-replay j older (next it) _ h (ap (λ n. n -ℤ pos 1) c)))

    -- A table with the counter 0 and nothing in its log but a header is told the events of any
    -- number of periods, and its log is rolled over after each of these; all the calls succeed.
    -- Training it then hands to its methods exactly the events of the last periods, as many as the
    -- time window holds: the last period first, and each one's events in order.
    pub train_periodic_log-run_periods :
        (d : Bytes) (periods : List (List Event)) (t : PeriodicLog W S)
        → t.last_counter ≡ pos 0
        → records LogFile.writing t.disk ≡ some (d ∷ [])
        → (run_periods st pr dt periods t).0 ≡ Status.ok
        → let q = (run_periods st pr dt periods t).1 in
          train_periodic_log st pr dt q ≡ (
            Status.ok,
            record q {
              target =
                  replay_files dt.train_click dt.train_item
                    (take (pos_part dt.time_window_size) (newest_first periods []))
                    q.target;
            },
          )
    unfolding train_periodic_log get_iterator
    train_periodic_log-run_periods d periods t zero_counter held ok =
        let start : IsRolling [] t = record {
          counter = zero_counter;
          archived = tt;
          current = (d, held);
        } in
        let h = run_periods-IsRolling periods [] t start ok in
        let q = (run_periods st pr dt periods t).1 in
        ap (λ t'. (Status.ok, t'))
          (train_files-replay (pos_part dt.time_window_size) (newest_first periods [])
            (get_iterator q) q h.archived (ap (λ c. c -ℤ pos 1) h.counter))
