-- ===== src/Storage.antt =====
-- The files below the model: write-ahead logs (`WALWriter`, `WALReader`), table files
-- (`TableFileReader`, `TableFileWriter`) and the calls `access`, `rename` and `remove`. Their code
-- is not in the repository, so they are operations on an abstract state `W` of the disk.
pub mod Memory
use content_based.Base.{
  ◌≡◌, ◌≢◌, Bool, true, false, Option, none, some, List, [], ◌∷◌, ◌++◌, map, ℕ, ℤ,
}
use content_based.Status.{Status}

abbrev pub Bytes : Type 0
Bytes = List ℕ

-- The logs of one table: `path/prefix.writing`, `path/prefix.recovering`, `path/prefix-n.log`.
pub data LogFile : Type 0 where
  writing : LogFile
  recovering : LogFile
  numbered : ℤ → LogFile

pub record Storage (W : Type 0) : Type 0 where
  -- `WALWriter` on the file `writing`; `append_later` is `append(data, false)`.
  pub create : W → Status × W
  pub append : Bytes → W → Status × W
  pub append_later : Bytes → W → Status × W
  pub flush : W → Status × W
  pub close : W → W
  -- `WALReader::open`, and the results of the calls of `read` that follow; after those listed,
  -- `read` gives an empty record.
  pub open_log : LogFile → W → Status
  pub reads : LogFile → W → List (Status × Bytes)
  -- `access`, `rename` and `remove`; `true` is success.
  pub file_exists : LogFile → W → Bool
  pub rename : LogFile → LogFile → W → Bool × W
  pub remove : LogFile → W → Bool × W
  -- The table file, and the temporary file that replaces it.
  pub open_table : W → Status
  pub table_reads : W → List (Status × Bytes)
  pub create_table : W → Status × W
  pub write_table : Bytes → W → Status × W
  pub close_table : W → W
  pub rename_table : W → Bool × W

-- Where a record is read back, it comes with status `ok`.
abbrev pub readable : List Bytes → List (Status × Bytes)
readable = map λ d. (Status.ok, d)

-- What is relied on of the logs, in terms of the records that each file holds, and of those that
-- the writer has accepted since `create`, of which any number may be in the file before a `flush`
-- that succeeds. Nothing is said of a call that fails but that it leaves the other files alone.
pub record IsReliable {W : Type 0} (st : Storage W) : Type 0 where
  pub records : LogFile → W → Option (List Bytes)
  pub accepted : W → Option (List Bytes)
  pub create_ok :
      (w : W) → (st.create w).0 ≡ Status.ok → records LogFile.writing (st.create w).1 ≡ some []
  pub create_accepted : (w : W) → (st.create w).0 ≡ Status.ok → accepted (st.create w).1 ≡ some []
  pub create_other :
      (w : W) (f : LogFile) → f ≢ LogFile.writing → records f (st.create w).1 ≡ records f w
  pub append_ok :
      (d : Bytes) (w : W) (rs : List Bytes)
      → records LogFile.writing w ≡ some rs
      → (st.append d w).0 ≡ Status.ok
      → records LogFile.writing (st.append d w).1 ≡ some (rs ++ d ∷ [])
  pub append_other :
      (d : Bytes) (w : W) (f : LogFile)
      → f ≢ LogFile.writing
      → records f (st.append d w).1 ≡ records f w
  pub append_later_ok :
      (d : Bytes) (w : W) (rs : List Bytes)
      → accepted w ≡ some rs
      → (st.append_later d w).0 ≡ Status.ok
      → accepted (st.append_later d w).1 ≡ some (rs ++ d ∷ [])
  pub append_later_other :
      (d : Bytes) (w : W) (f : LogFile)
      → f ≢ LogFile.writing
      → records f (st.append_later d w).1 ≡ records f w
  pub flush_ok :
      (w : W) (rs : List Bytes)
      → accepted w ≡ some rs
      → (st.flush w).0 ≡ Status.ok
      → records LogFile.writing (st.flush w).1 ≡ some rs
  pub flush_other :
      (w : W) (f : LogFile) → f ≢ LogFile.writing → records f (st.flush w).1 ≡ records f w
  pub close_records : (w : W) (f : LogFile) → records f (st.close w) ≡ records f w
  pub open_log_ok :
      (w : W) (f : LogFile) (rs : List Bytes) → records f w ≡ some rs → st.open_log f w ≡ Status.ok
  pub reads_ok :
      (w : W) (f : LogFile) (rs : List Bytes) → records f w ≡ some rs → st.reads f w ≡ readable rs
  pub exists_some :
      (w : W) (f : LogFile) (rs : List Bytes) → records f w ≡ some rs → st.file_exists f w ≡ true
  pub exists_none : (w : W) (f : LogFile) → records f w ≡ none → st.file_exists f w ≡ false
  pub rename_target :
      (w : W) (f g : LogFile)
      → (st.rename f g w).0 ≡ true
      → records g (st.rename f g w).1 ≡ records f w
  pub rename_source :
      (w : W) (f g : LogFile)
      → f ≢ g
      → (st.rename f g w).0 ≡ true
      → records f (st.rename f g w).1 ≡ none
  pub rename_other :
      (w : W) (f g h : LogFile) → h ≢ f → h ≢ g → records h (st.rename f g w).1 ≡ records h w
  pub remove_ok :
      (w : W) (f : LogFile) → (st.remove f w).0 ≡ true → records f (st.remove f w).1 ≡ none
  pub remove_other : (w : W) (f h : LogFile) → h ≢ f → records h (st.remove f w).1 ≡ records h w
