-- ===== src/Storage/Memory.antt =====
-- A disk in memory, on which every call succeeds but `create` when it is full: it shows that `IsReliable` can be met, and the
-- tests run on it.
use content_based.Base.{
  ◌≡◌, ◌≢◌, refl, sym, ap, ◌∙◌, inl, inr, Bool-cases, Bool, true, false, Option, none, some, List,
  [], ◌∷◌, ◌++◌, ◌==ℤ◌, ==ℤ_iff, if◌then◌else◌, arith,
}
use content_based.Status.{Status}
use content_based.Storage.{Bytes, LogFile, Storage, readable, IsReliable}

pub record Disk : Type 0 where
  pub full : Bool
  pub logs : LogFile → Option (List Bytes)
  pub table : List Bytes
  pub temporary : List Bytes

abbrev pub same_file : LogFile → LogFile → Bool
same_file LogFile.writing LogFile.writing = true
same_file LogFile.recovering LogFile.recovering = true
same_file (LogFile.numbered a) (LogFile.numbered b) = a ==ℤ b
same_file _ _ = false

pub same_file→eq : (f g : LogFile) → same_file f g ≡ true → f ≡ g
same_file→eq LogFile.writing LogFile.writing h = refl
same_file→eq LogFile.recovering LogFile.recovering h = refl
same_file→eq (LogFile.numbered a) (LogFile.numbered b) h = ground (arith, ==ℤ_iff a b)
same_file→eq _ _ h = cc

pub same_file_refl : (f : LogFile) → same_file f f ≡ true
same_file_refl LogFile.writing = refl
same_file_refl LogFile.recovering = refl
same_file_refl (LogFile.numbered a) = ground (arith, ==ℤ_iff a a)

abbrev pub put : LogFile → Option (List Bytes) → Disk → Disk
put f r d = record d { logs = λ g. if same_file f g then r else d.logs g }

abbrev pub extend : Bytes → Option (List Bytes) → Option (List Bytes)
extend b none = none
extend b (some rs) = some (rs ++ b ∷ [])

abbrev pub or_empty : Option (List Bytes) → List Bytes
or_empty none = []
or_empty (some rs) = rs

abbrev pub opens : Option (List Bytes) → Status
opens none = Status.io_error
opens (some rs) = Status.ok

abbrev pub present : Option (List Bytes) → Bool
present none = false
present (some rs) = true

abbrev pub created : Bool → Disk → Status × Disk
created true d = (Status.io_error, d)
created false d = (Status.ok, put LogFile.writing (some []) d)

abbrev pub memory : Storage Disk
memory = record {
  create = λ d. created d.full d;
  append = λ b d. (Status.ok, put LogFile.writing (extend b (d.logs LogFile.writing)) d);
  append_later = λ b d. (Status.ok, put LogFile.writing (extend b (d.logs LogFile.writing)) d);
  flush = λ d. (Status.ok, d);
  close = λ d. d;
  open_log = λ f d. opens (d.logs f);
  reads = λ f d. readable (or_empty (d.logs f));
  file_exists = λ f d. present (d.logs f);
  rename = λ f g d. (true, put g (d.logs f) (put f none d));
  remove = λ f d. (true, put f none d);
  open_table = λ d. Status.ok;
  table_reads = λ d. readable d.table;
  create_table = λ d. (Status.ok, record d { temporary = [] });
  write_table = λ b d. (Status.ok, record d { temporary = d.temporary ++ b ∷ [] });
  close_table = λ d. d;
  rename_table = λ d. (true, record d { table = d.temporary });
}

pub put-ne :
    (f g : LogFile) (r : Option (List Bytes)) (d : Disk) → g ≢ f → (put f r d).logs g ≡ d.logs g
put-ne f g r d h = elim (Bool-cases (same_file f g)) [
  | inl e ↦ absurd (h (sym (same_file→eq f g e)))
  | inr e ↦ rw e
]

pub put_self : (f : LogFile) (r : Option (List Bytes)) (d : Disk) → (put f r d).logs f ≡ r
put_self f r d = rw (same_file_refl f)

pub created_ok :
    (full : Bool) (d : Disk)
    → (created full d).0 ≡ Status.ok
    → (created full d).1.logs LogFile.writing ≡ some []
created_ok true d h = cc
created_ok false d h = refl

pub created_other :
    (full : Bool) (d : Disk) (f : LogFile)
    → f ≢ LogFile.writing
    → (created full d).1.logs f ≡ d.logs f
created_other true d f h = refl
created_other false d f h = put-ne LogFile.writing f (some []) d h

abbrev pub memory-IsReliable : IsReliable memory
memory-IsReliable = record {
  records = λ f d. d.logs f;
  accepted = λ d. d.logs LogFile.writing;
  create_accepted = λ w e. created_ok w.full w e;
  create_ok = λ w e. created_ok w.full w e;
  create_other = λ w f h. created_other w.full w f h;
  append_ok = λ d w rs h e. ap (extend d) h;
  append_other = λ d w f h. put-ne LogFile.writing f _ w h;
  append_later_ok = λ d w rs h e. ap (extend d) h;
  append_later_other = λ d w f h. put-ne LogFile.writing f _ w h;
  flush_ok = λ w rs h e. h;
  flush_other = λ w f h. refl;
  close_records = λ w f. refl;
  open_log_ok = λ w f rs h. ap opens h;
  reads_ok = λ w f rs h. ap (λ r. readable (or_empty r)) h;
  exists_some = λ w f rs h. ap present h;
  exists_none = λ w f h. ap present h;
  rename_target = λ w f g e. put_self g (w.logs f) (put f none w);
  rename_source = λ w f g h e. put-ne g f (w.logs f) (put f none w) h ∙ put_self f none w;
  rename_other = λ w f g h p q. put-ne g h (w.logs f) (put f none w) q ∙ put-ne f h none w p;
  remove_ok = λ w f e. put_self f none w;
  remove_other = λ w f h p. put-ne f h none w p;
}
