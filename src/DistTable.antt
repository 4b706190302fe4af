-- ===== src/DistTable.antt =====
-- src/core/dist_table.{h,cpp}: a table that logs clicks and items ahead, and is trained from its
-- logs. The object is its periodic log together with the fields `S` of the derived class, which
-- are what the visitor of the log writes to. A derived class is a record of its virtual methods.
pub mod Logging
pub mod Elimination
pub mod Window
use content_based.Base.{
  ◌≡◌, Bool, true, false, Option, none, some, List, [], ◌∷◌, if◌then◌else◌, arith, ◌==◌, ℕ, zero,
  suc, ℤ, pos, pos_part, leb_ℤ,
}
use content_based.Status.{Status, Run, ◌>>◌, then_run, is_ok}
use content_based.Storage.{Bytes, Storage}
use content_based.Protocol.{CategoryClick, CategoryItem, CategoryDistribution, Protocol}
use content_based.PeriodicLog.{
  PeriodicLog, Iterator, next, filename, get_iterator, is_file_exist, Opened, reader_open, failed,
  opened, open_periodic, write,
}
use content_based.PeriodicLog

-- `kLogTypeClick` and `kLogTypeItem`.
abbrev pub log_type_click : ℕ
log_type_click = b'C'

abbrev pub log_type_item : ℕ
log_type_item = b'I'

pub record DistTable (W S F : Type 0) : Type 0 where
  pub time_window_size : ℤ
  pub need_eliminate : S → ℤ → ℤ → Bool
  pub reload_before : Run S
  pub reload_completed : Run S
  pub train_before : Run S
  pub train_completed : Run S
  pub eliminate_before : Run S
  pub eliminate_completed : Run S
  pub recovery_click : CategoryClick → Run S
  pub recovery_item : CategoryItem → Run S
  pub train_click : CategoryClick → Run S
  pub train_item : CategoryItem → Run S
  pub eliminate_click : CategoryClick → Run S
  pub eliminate_item : CategoryItem → Run S
  -- `dumpTable`, given the `write` of the table writer.
  pub dump_table : (Bytes → W → Status × W) → Run (S × W)
  pub load_distribution : CategoryDistribution F → Run S

-- The call of a method on a message that may not have parsed.
abbrev pub on_parsed {ℓ} : {M : Type ℓ} {S : Type 0} → (M → Run S) → Option M → Run S
on_parsed f none s = (Status.corruption, s)
on_parsed f (some m) s = f m s

module _ {S F : Type 0} (pr : Protocol F) where
  open pr use {parse_click, parse_item}

  -- A record handed to the method for its type, as both `recoveryAheadLog` and the body of the loop
  -- of `readPeriodicLog` do. (A record that is empty has the type byte 0.)
  unfoldable pub dispatch : (CategoryClick → Run S) → (CategoryItem → Run S) → Bytes → Run S
  dispatch clickf itemf [] s = (Status.corruption, s)
  dispatch clickf itemf (t ∷ d) s =
      if t == log_type_click
      then on_parsed clickf (parse_click d) s
      else if t == log_type_item
      then on_parsed itemf (parse_item d) s
      else (Status.corruption, s)

  -- The loop of `readPeriodicLog`; the status of the methods is only logged.
  unfoldable pub read_records :
      (CategoryClick → Run S) → (CategoryItem → Run S) → List (Status × Bytes) → S → S
  read_records clickf itemf [] s = s
  read_records clickf itemf ((e, []) ∷ rs) s = s
  read_records clickf itemf ((e, t ∷ d) ∷ rs) s =
      let rest = read_records clickf itemf rs (dispatch clickf itemf (t ∷ d) s).1 in
      if is_ok e then rest else s

module _ {W S F : Type 0} (st : Storage W) (pr : Protocol F) (dt : DistTable W S F) where
  open st use {
    remove, open_table, table_reads, create_table, write_table, close_table, rename_table,
  }

  abbrev pub Table : Type 0
  Table = PeriodicLog W S

  -- A method of the derived class.
  abbrev pub on_table : Run S → Run Table
  on_table f t = let (e, s) = f t.target in (e, record t { target = s })

  unfoldable pub recovery_ahead_log : Bytes → Run S
  recovery_ahead_log = dispatch pr dt.recovery_click dt.recovery_item

  unfoldable pub init : Run Table
  init = open_periodic st (pos 0) (some λ d s. (recovery_ahead_log d s).1)

  -- The loop of `reload`.
  unfoldable pub load_records : List (Status × Bytes) → Run S
  load_records [] s = (Status.ok, s)
  load_records ((e, []) ∷ rs) s = (Status.ok, s)
  load_records ((e, c ∷ cs) ∷ rs) s =
      if is_ok e
      then elim (pr.parse_distribution (c ∷ cs)) [
        | none ↦ (Status.corruption, s)
        | some d ↦ load_records rs (dt.load_distribution d s).1
      ]
      else (Status.ok, s)

  unfoldable pub reload : Run Table
  reload =
      on_table dt.reload_before
      >> (λ t. (open_table t.disk, t))
      >> (λ t. on_table (load_records (table_reads t.disk)) t)
      >> on_table dt.reload_completed

  unfoldable pub read_periodic_log :
      (CategoryClick → Run S) → (CategoryItem → Run S) → Iterator → Run Table
  read_periodic_log clickf itemf it t = elim (reader_open st it t.disk) [
    | failed e ↦ (e, t)
    | opened n rs ↦ (Status.ok, record t { target = read_records pr clickf itemf rs t.target })
  ]

  -- The body of the loop of `trainPeriodicLog`, and the loop.
  unfoldable pub train_file : Iterator → Table → Table
  train_file it t =
      if is_file_exist st it t.disk
      then (read_periodic_log dt.train_click dt.train_item it t).1
      else t

  unfoldable pub train_files : ℕ → Iterator → Table → Table
  train_files zero it t = t
  train_files (suc j) it t =
      let rest = train_files j (next it) (train_file it t) in
      if leb_ℤ (pos 0) it.counter then rest else t

  unfoldable pub train_periodic_log : Run Table
  train_periodic_log t = (Status.ok, train_files (pos_part dt.time_window_size) (get_iterator t) t)

  -- The body of the loop of `eliminatePeriodicLog`: what `readPeriodicLog` returns is dropped.
  unfoldable pub eliminate_file : Iterator → Run Table
  eliminate_file it t =
      if is_file_exist st it t.disk
      then if dt.need_eliminate t.target it.last_counter it.counter
        then (let read = (read_periodic_log dt.eliminate_click dt.eliminate_item it t).1 in
            let (done, w) = remove (filename it) read.disk in
            (if done then Status.ok else Status.io_error, record read { disk = w }))
        else (Status.ok, t)
      else (Status.ok, t)

  unfoldable pub eliminate_files : ℕ → Iterator → Run Table
  eliminate_files zero it t = (Status.ok, t)
  eliminate_files (suc j) it t =
      let rest = then_run (eliminate_file it t) (eliminate_files j (next it)) in
      if leb_ℤ (pos 0) it.counter then rest else (Status.ok, t)

  unfoldable pub eliminate_periodic_log : Run Table
  eliminate_periodic_log t = eliminate_files (pos_part dt.time_window_size) (get_iterator t) t

  unfoldable pub eliminate : Run Table
  eliminate =
      on_table dt.eliminate_before >> eliminate_periodic_log >> on_table dt.eliminate_completed

  -- `dumpTable` on the writer of the temporary file.
  unfoldable pub dump : Run Table
  dump t =
      let (e, (s, w)) = dt.dump_table write_table (t.target, t.disk) in
      (e, record t { target = s; disk = w })

  abbrev pub on_files : (W → Status × W) → Run Table
  on_files f t = let (e, w) = f t.disk in (e, record t { disk = w })

  unfoldable pub replace_table : W → Status × W
  replace_table w =
      let (done, w') = rename_table w in (if done then Status.ok else Status.io_error, w')

  unfoldable pub train : Run Table
  train =
      on_table dt.train_before
      >> train_periodic_log
      >> on_files create_table
      >> dump
      >> (λ t. (Status.ok, record t { disk = close_table t.disk }))
      >> on_table dt.train_completed
      >> on_files replace_table

  unfoldable pub rollover : Run Table
  rollover = PeriodicLog.rollover st

  -- A serialised message behind its type byte; the message of the status differs for the two.
  unfoldable pub log_message : ℕ → Option Bytes → Run Table
  log_message t none p = (Status.corruption, p)
  log_message t (some b) p = write st (t ∷ b) p

  unfoldable pub add_click : CategoryClick → Run Table
  add_click c = log_message log_type_click (pr.encode_click c)

  unfoldable pub add_item : CategoryItem → Run Table
  add_item i = log_message log_type_item (pr.encode_item i)
