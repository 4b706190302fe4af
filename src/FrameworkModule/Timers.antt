-- ===== src/FrameworkModule/Timers.antt =====
-- src/framework/CF_framework_module.h: `thread_persistent` and `thread_train`, one turn at a time.
-- A time stamp is a `var_u8`, a number below 2 ^ 64; `now` is what `time(NULL)` gives.
use content_based.Base.{
  Option, none, some, List, [], ◌∷◌, if◌then◌else◌, ℕ, ◌+◌, ◌-◌, ◌*◌, ◌%◌, ◌^◌, ℤ, pos, ltb, leb,
  ◌==ℤ◌,
}
use content_based.Storage.{Bytes}
use content_based.FrameworkModule.{Interface, Wire}

-- A flag file that holds one number, in the state `D` of the disk: `fgets` and `cp_strtoval_u64`
-- of it, `none` where it cannot be opened, and `fprintf` with `CP_PU64`, which changes nothing where
-- it cannot be opened. What `fgets` gives of an empty file is not defined by the source.
pub record FlagFile (D : Type 0) : Type 0 where
  pub read_stamp : D → Option ℕ
  pub write_stamp : ℕ → D → D

-- Before the loop of either thread.
abbrev pub stamp_or_zero : Option ℕ → ℕ
stamp_or_zero none = 0
stamp_or_zero (some n) = n

-- The time that has passed: a subtraction of numbers below 2 ^ 64.
abbrev pub elapsed : ℕ → ℕ → ℕ
elapsed now stamp = (now + 2 ^ 64 - stamp) % 2 ^ 64

-- What a thread holds: its time stamp, the state of the model and that of the disk.
pub record Keeper (S D : Type 0) : Type 0 where
  pub time_stamp : ℕ
  pub model_state : S
  pub disk : D

-- The loop over the folders of the training path, `stamps` being their names as numbers.
unfoldable pub newest : ℕ → List ℕ → ℕ
newest new_time_stamp [] = new_time_stamp
newest new_time_stamp (tmp ∷ stamps) =
    newest (if ltb new_time_stamp tmp then tmp else new_time_stamp) stamps

module _ {F S D : Type 0} {w : Wire} (flag : FlagFile D) (model : Interface F w S) where
  -- A thread that starts.
  unfoldable pub start : S → D → Keeper S D
  start s d = record { time_stamp = stamp_or_zero (flag.read_stamp d); model_state = s; disk = d }

  -- The state after the call that a turn makes: the stamp is moved, and written, on success only.
  unfoldable pub stamped : ℕ → ℤ × S → Keeper S D → Keeper S D
  stamped stamp (code, s) k =
      if code ==ℤ pos 0
      then record { time_stamp = stamp; model_state = s; disk = flag.write_stamp stamp k.disk }
      else record k { model_state = s }

  -- `interval` is `md_persistent_interval`, in minutes.
  unfoldable pub persistent_turn : ℕ → ℕ → Keeper S D → Keeper S D
  persistent_turn interval now k =
      if ltb (elapsed now k.time_stamp) (interval * 60)
      then k
      else stamped now (model.persistent_library k.model_state) k

  -- The path is not opened where `folders` is `none`; `update_path` prints the path of a folder.
  unfoldable pub train_turn : (ℕ → Bytes) → Option (List ℕ) → Keeper S D → Keeper S D
  train_turn update_path none k = k
  train_turn update_path (some folders) k =
      let new_time_stamp = newest k.time_stamp folders in
      if leb new_time_stamp k.time_stamp
      then k
      else stamped new_time_stamp (model.update_train (update_path new_time_stamp) k.model_state) k
