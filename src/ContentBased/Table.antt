-- ===== src/ContentBased/Table.antt =====
-- The table of categories, written and read back.
use mathlib.Core.List.{append_assoc, append-nil}
use content_based.Base.{
  ◌≡◌, refl, sym, ap, ◌∙◌, subst, inl, inr, true, false, some, List, [], ◌∷◌, ◌++◌, if◌then◌else◌,
  ℕ, suc, ◌-◌, ◌≤◌, ◌<◌, ℤ, pos, ◌==◌, arith, All, length, length-append, All-append, Bool-cases,
}
use content_based.Status.{Status}
use content_based.Storage.{Bytes, Storage}
use content_based.Floats.{Floats}
use content_based.Protocol.{Protocol}
use content_based.Map.{Map, int_key}
use content_based.Map.Order.{IsRising, insert-rising}
use content_based.PeriodicLog.Decimal.{sprintf_d, is_digit, sprintf_d-IsDigits}
use content_based.ContentBased.{
  ContentBased, Databases, Options, load_category, flush_category, rename_category,
}
use content_based.ContentBased.Categories.{
  CategoryFile, strip_end, parse_line, put_category, load_lines, print_line, print_categories,
}
use content_based.ContentBased.Lines.{parse_line-print_line}

-- What the calls of `fgets(buf, 1022, ...)` give: a line with its end, or 1021 bytes of a longer
-- one. `room` is how many more bytes go into the line that is being read.
unfoldable pub fgets_lines : ℕ → Bytes → Bytes → List Bytes
fgets_lines room line [] = if length line == 0 then [] else line ∷ []
fgets_lines room line (b ∷ bs) =
    let ended = fgets_lines 1021 [] bs in
    let more = fgets_lines (room - 1) (line ++ b ∷ []) bs in
    if b == b'\n'
    then (line ++ b ∷ []) ∷ ended
    else if room == 1
    then (line ++ b ∷ []) ∷ ended
    else more

-- A byte of a text that is one line and one C string.
abbrev IsInLine : ℕ → Type 0
IsInLine b = ((b == b'\n') ≡ false) × ((b == 0) ≡ false)

-- What is relied on of the file: what was written to the temporary file is, once that is renamed,
-- what `fgets` reads.
pub record IsKeptTable {C : Type 0} (cf : CategoryFile C) : Type 0 where
  pub reads_back :
      (b : Bytes) (c : C)
      → All (λ d. (d == 0) ≡ false) b
      → (cf.create_temporary c).0 ≡ true
      → (cf.rename_temporary (cf.write_temporary b (cf.create_temporary c).1)).0 ≡ true
      → cf.lines (cf.rename_temporary (cf.write_temporary b (cf.create_temporary c).1)).1
        ≡ some (fgets_lines 1021 [] b)

-- A category whose line is read back: its id is not negative, its name is one line, does not end
-- in blanks, and is not too long for the buffer.
pub record IsPrintable (c : ℤ) (name : Bytes) : Type 0 where
  pub id : ℕ
  pub is_id : c ≡ pos id
  pub stripped : strip_end name ≡ name
  pub in_line : All IsInLine name
  pub short : length (print_line c name) ≤ 1021

abbrev pub ArePrintable : Map ℤ Bytes → Type 0
ArePrintable [] = Unit
ArePrintable ((c, name) ∷ m) = IsPrintable c name × ArePrintable m

abbrev lines_of : Map ℤ Bytes → List Bytes
lines_of [] = []
lines_of ((c, name) ∷ m) = print_line c name ∷ lines_of m

digits-IsInLine : (ds : Bytes) → All (λ d. is_digit d ≡ true) ds → All IsInLine ds
digits-IsInLine [] h = tt
digits-IsInLine (d ∷ ds) (h, hs) = ((ground (arith, h), ground (arith, h)), digits-IsInLine ds hs)

fgets_lines-line :
    (room : ℕ) (line body rest : Bytes)
    → All IsInLine body
    → length body < room
    → fgets_lines room line (body ++ b'\n' ∷ rest)
      ≡ (line ++ (body ++ b'\n' ∷ [])) ∷ fgets_lines 1021 [] rest
unfolding fgets_lines
fgets_lines-line room line [] rest h s = refl
fgets_lines-line room line (b ∷ body) rest h s = elim (Bool-cases (room == 1)) [
  | inl e ↦ absurd (not_one room (length body) s e)
  | inr e ↦
      rw (h.0.0, e)
        (fgets_lines-line (room - 1) (line ++ b ∷ []) body rest h.1 (omega (arith, s))
          ∙ ap (λ l. l ∷ fgets_lines 1021 [] rest)
              (append_assoc line (b ∷ []) (body ++ b'\n' ∷ [])))
]
  where
    not_one : (room n : ℕ) → suc n < room → (room == 1) ≡ true → ⊥
    not_one room n s e = ground arith

-- The text of a line in front of its end.
line_body :
    (c : ℤ) (name : Bytes)
    → IsPrintable c name
    → (body : Bytes) × (print_line c name ≡ body ++ b'\n' ∷ []) × All IsInLine body
unfolding print_line
line_body c name p = (
  sprintf_d c ++ (b'|' ∷ name),
  sym (append_assoc (sprintf_d c) (b'|' ∷ name) (b'\n' ∷ [])),
  All-append IsInLine (sprintf_d c) (b'|' ∷ name)
      (subst (λ z. All IsInLine (sprintf_d z)) (sym p.is_id)
        (digits-IsInLine (sprintf_d (pos p.id)) (sprintf_d-IsDigits p.id)))
      ((refl, refl), p.in_line),
)

fgets_lines-print_line :
    (c : ℤ) (name rest : Bytes)
    → IsPrintable c name
    → fgets_lines 1021 [] (print_line c name ++ rest) ≡ print_line c name ∷ fgets_lines 1021 [] rest
fgets_lines-print_line c name rest p =
    let (body, e, h) = line_body c name p in
    let short : length (body ++ b'\n' ∷ []) ≤ 1021 = subst (λ l. length l ≤ 1021) e p.short in
    ap (λ l. fgets_lines 1021 [] (l ++ rest)) e
    ∙ ap (fgets_lines 1021 []) (append_assoc body (b'\n' ∷ []) rest)
    ∙ fgets_lines-line 1021 [] body rest h (omega (arith, short, length-append body (b'\n' ∷ [])))
    ∙ ap (λ l. l ∷ fgets_lines 1021 [] rest) (sym e)

fgets_lines-print_categories :
    (m : Map ℤ Bytes) → ArePrintable m → fgets_lines 1021 [] (print_categories m) ≡ lines_of m
unfolding print_categories fgets_lines
fgets_lines-print_categories [] h = refl
fgets_lines-print_categories ((c, name) ∷ m) h =
    fgets_lines-print_line c name (print_categories m) h.0
    ∙ ap (λ ls. print_line c name ∷ ls) (fgets_lines-print_categories m h.1)

load_lines-lines_of :
    (m acc : Map ℤ Bytes)
    → ArePrintable m
    → IsRising (acc ++ m)
    → load_lines (lines_of m) acc ≡ acc ++ m
unfolding load_lines put_category
load_lines-lines_of [] acc h r = sym (append-nil acc)
load_lines-lines_of ((c, name) ∷ m) acc h r =
    let (absent, placed) = insert-rising c name acc m r in
    let parsed : parse_line (print_line c name) ≡ some (c, name) =
      subst (λ z. parse_line (print_line z name) ≡ some (z, name)) (sym h.0.is_id)
        (parse_line-print_line h.0.id name h.0.stripped) in
    rw (load_lines, parsed, put_category, absent, placed)
      (load_lines-lines_of m (acc ++ (c, name) ∷ []) h.1
          (subst IsRising (sym (append_assoc acc ((c, name) ∷ []) m)) r)
        ∙ append_assoc acc ((c, name) ∷ []) m)

no_zeros : (bs : Bytes) → All IsInLine bs → All (λ d. (d == 0) ≡ false) bs
no_zeros [] h = tt
no_zeros (b ∷ bs) h = (h.0.1, no_zeros bs h.1)

print_categories-no_zeros :
    (m : Map ℤ Bytes) → ArePrintable m → All (λ d. (d == 0) ≡ false) (print_categories m)
unfolding print_categories
print_categories-no_zeros [] h = tt
print_categories-no_zeros ((c, name) ∷ m) h =
    let (body, e, q) = line_body c name h.0 in
    All-append _ (print_line c name) (print_categories m)
      (subst (All (λ d. (d == 0) ≡ false)) (sym e)
        (All-append _ body (b'\n' ∷ []) (no_zeros body q) (refl, tt)))
      (print_categories-no_zeros m h.1)

module _ {U I C W : Type 0} (fl : Floats) (db : Databases U I) (cf : CategoryFile C)
    (kept : IsKeptTable cf) (st : Storage W) (pr : Protocol fl.Float) (opts : Options fl.Float)
    (now : ℤ) where
  abbrev written : ContentBased U I C W fl.Double → C
  written s = cf.write_temporary (print_categories s.category) (cf.create_temporary s.files).1

  io_error_not_ok : Status.io_error ≡ Status.ok → ⊥
  io_error_not_ok e = cc

  flush_category-ok :
      (s : ContentBased U I C W fl.Double)
      → (flush_category fl db cf st pr opts now s).0 ≡ Status.ok
      → ((cf.create_temporary s.files).0 ≡ true)
        × ((cf.rename_temporary (written s)).0 ≡ true)
        × (flush_category fl db cf st pr opts now s ≡ (
          Status.ok,
          record s { files = (cf.rename_temporary (written s)).1; is_category_modified = false },
        ))
  unfolding flush_category rename_category
  flush_category-ok s = elim (Bool-cases (cf.create_temporary s.files).0) [
    | inl opened ↦ elim (Bool-cases (cf.rename_temporary (written s)).0) [
      | inl renamed ↦ rw (flush_category, opened, renamed) λ run. (refl, refl, refl)
      | inr failed ↦ rw (flush_category, opened, failed) λ run. absurd (io_error_not_ok run)
    ]
    | inr failed ↦ rw (flush_category, failed) λ run. absurd (io_error_not_ok run)
  ]

  -- A table of categories whose ids rise and are not negative, and whose names are single lines that
  -- do not end in blanks and are short enough for the buffer: if flushing it succeeds, a model that
  -- starts without categories and loads the file has the same table.
  pub load_category-flush_category :
      (s : ContentBased U I C W fl.Double)
      → IsRising s.category
      → ArePrintable s.category
      → (flush_category fl db cf st pr opts now s).0 ≡ Status.ok
      → let q = (flush_category fl db cf st pr opts now s).1 in
        load_category fl db cf st pr opts now (record q { category = [] }) ≡ (Status.ok, q)
  unfolding load_category
  load_category-flush_category s rising printable ok =
      let (opened, renamed, flushed) = flush_category-ok s ok in
      let table = s.category in
      let read =
        kept.reads_back (print_categories table) s.files (print_categories-no_zeros table printable)
          opened renamed
        ∙ ap some (fgets_lines-print_categories table printable) in
      subst
        (λ r.
          load_category fl db cf st pr opts now (record (r.1) { category = [] }) ≡ (Status.ok, r.1))
        (sym flushed) (rw (load_category, read, load_lines-lines_of table [] printable rising) refl)
