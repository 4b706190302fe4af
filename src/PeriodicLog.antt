-- ===== src/PeriodicLog.antt =====
-- src/core/periodic_log.{h,cpp}: the log that a table writes ahead, in files that are replaced
-- every period. `V` is what the visitor of `open` writes to.
pub mod Decimal
pub mod Rollover
pub mod Recovery
pub mod Restart
use content_based.Base.{
  ◌≡◌, Bool, true, false, Option, none, some, List, [], ◌∷◌, if◌then◌else◌, ℤ, pos, ◌+ℤ◌, ◌-ℤ◌,
}
use content_based.Status.{Status, Run, ◌>>◌, then_run, succeed, is_ok}
use content_based.Storage.{Bytes, LogFile, Storage}
use Decimal.{sprintf_d, atoi}

pub record PeriodicLog (W V : Type 0) : Type 0 where
  pub last_counter : ℤ
  -- `writer_` is not NULL. Every method but `open` and `get_iterator` is called after `open`.
  pub has_writer : Bool
  pub disk : W
  pub target : V

-- `PeriodicLog::Iterator`; the path and the prefix are the same for all the files of a log.
pub record Iterator : Type 0 where
  pub last_counter : ℤ
  pub counter : ℤ

pub prev : Iterator → Iterator
prev it = record it { counter = it.counter +ℤ pos 1 }

unfoldable pub next : Iterator → Iterator
next it = record it { counter = it.counter -ℤ pos 1 }

unfoldable pub filename : Iterator → LogFile
filename it = LogFile.numbered it.counter

module _ {W V : Type 0} where
  unfoldable pub get_iterator : PeriodicLog W V → Iterator
  get_iterator p = let c = p.last_counter -ℤ pos 1 in record { last_counter = c; counter = c }

module _ {W : Type 0} (st : Storage W) where
  open st use {
    create, append, append_later, flush, close, open_log, reads, file_exists, rename, remove,
  }

  unfoldable pub is_file_exist : Iterator → W → Bool
  unfolding filename
  is_file_exist it w = file_exists (filename it) w

  -- The rest of a log, after `Reader::open` has read the header with the number of the log.
  pub data Opened : Type 0 where
    failed : Status → Opened
    opened : ℤ → List (Status × Bytes) → Opened

  after_header : List (Status × Bytes) → Opened
  after_header [] = opened (atoi []) []
  after_header ((s, d) ∷ rs) = if is_ok s then opened (atoi d) rs else failed s

  unfoldable pub reader_open : Iterator → W → Opened
  unfolding after_header filename
  reader_open it w =
      let s = open_log (filename it) w in
      if is_ok s then after_header (reads (filename it) w) else failed s

module _ {W V : Type 0} (st : Storage W) where
  open st use {
    create, append, append_later, flush, close, open_log, reads, file_exists, rename, remove,
  }

  -- A call of the writer, which changes the disk only.
  abbrev pub on_disk : (W → Status × W) → Run (PeriodicLog W V)
  on_disk f p = let (s, w) = f p.disk in (s, record p { disk = w })

  -- What the loop of `recovery` does with one record that it has read.
  unfoldable pub recover_record :
      Option (Bytes → V → V) → Bool → Bytes → PeriodicLog W V → PeriodicLog W V
  recover_record visitor true d p = record p { last_counter = atoi d }
  recover_record none false d p = p
  recover_record (some visit) false d p = record p { target = visit d p.target }

  -- The loop; the status is not `ok` where it went to `FAILED`.
  unfoldable pub recover :
      Option (Bytes → V → V) → Bool → List (Status × Bytes) → Run (PeriodicLog W V)
  recover visitor first [] p = (Status.ok, p)
  recover visitor first ((s, []) ∷ rs) p = (Status.ok, p)
  recover visitor first ((s, c ∷ cs) ∷ rs) p =
      if is_ok s
      then then_run (on_disk (append_later (c ∷ cs)) (recover_record visitor first (c ∷ cs) p))
          (recover visitor false rs)
      else (Status.ok, p)

  -- After the loop the status of `flush` and of `remove` is dropped.
  unfoldable pub finish_recovery : LogFile → Run (PeriodicLog W V)
  finish_recovery name p =
      let flushed = (flush p.disk).1 in (Status.ok, record p { disk = (remove name flushed).1 })

  unfoldable pub recovery : LogFile → Option (Bytes → V → V) → Run (PeriodicLog W V)
  recovery name visitor p =
      let s = open_log name p.disk in
      if is_ok s
      then then_run (recover visitor true (reads name p.disk) p) (finish_recovery name)
      else (s, p)

  -- `writer_->create`, and then `recovery` of the file `.recovering`.
  unfoldable pub create_and_recover : Option (Bytes → V → V) → Run (PeriodicLog W V)
  create_and_recover visitor = on_disk create >> recovery LogFile.recovering visitor

  unfoldable pub create_first : Run (PeriodicLog W V)
  create_first = on_disk create >> λ p. on_disk (append (sprintf_d p.last_counter)) p

  unfoldable pub start_recovery : Option (Bytes → V → V) → Run (PeriodicLog W V)
  start_recovery visitor p =
      let (done, w) = rename LogFile.writing LogFile.recovering p.disk in
      if done
      then create_and_recover visitor (record p { disk = w })
      else (Status.io_error, record p { disk = w })

  -- `PeriodicLog::open`.
  unfoldable pub open_periodic : ℤ → Option (Bytes → V → V) → Run (PeriodicLog W V)
  open_periodic counter visitor p0 =
      let p = record p0 { last_counter = counter; has_writer = true } in
      if file_exists LogFile.recovering p.disk
      then create_and_recover visitor p
      else if file_exists LogFile.writing p.disk
      then start_recovery visitor p
      else create_first p

  -- `last_counter_++` and the status of the call before it.
  abbrev bump_counter : Status × PeriodicLog W V → Status × PeriodicLog W V
  bump_counter (s, p) = (s, record p { last_counter = p.last_counter +ℤ pos 1 })

  unfoldable pub rollover : Run (PeriodicLog W V)
  rollover p =
      let (done, w) = rename LogFile.writing (LogFile.numbered p.last_counter) (close p.disk) in
      let renamed = record p { disk = w } in
      if done
      then then_run (on_disk create renamed)
          (λ q. bump_counter (on_disk (append (sprintf_d q.last_counter)) q))
      else (Status.io_error, renamed)

  unfoldable pub write : Bytes → Run (PeriodicLog W V)
  write d = on_disk (append d)

  pub close_log : PeriodicLog W V → PeriodicLog W V
  close_log p = record p { disk = close p.disk }
