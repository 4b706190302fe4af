-- ===== src/ContentBased/Categories.antt =====
-- src/core/content_based.cpp: the text of the table of categories, a line `id|name` for each.
use content_based.Base.{
  Bool, ◌&&◌, Option, none, some, List, [], ◌∷◌, ◌++◌, if◌then◌else◌, ℕ, ℤ, pos, leb, ◌==◌, ltb_ℤ,
}
use content_based.Status.{Run}
use content_based.Storage.{Bytes}
use content_based.Map.{Map, find, insert, assign, int_key}
use content_based.PeriodicLog.Decimal.{sprintf_d, atoi}

-- The file of the table, and the lock file (`FileWriter`). `lines` is what the calls of `fgets`
-- give, as C strings, or nothing where `fopen` fails.
pub record CategoryFile (C : Type 0) : Type 0 where
  pub lines : C → Option (List Bytes)
  pub create_temporary : C → Bool × C
  pub write_temporary : Bytes → C → C
  pub rename_temporary : C → Bool × C
  pub create_lock : Run C
  pub lock : Run C

-- The characters that are cut off at the end of a line: as `char`, over 0 and up to 0x20.
abbrev pub is_space : ℕ → Bool
is_space c = leb 1 c && leb c 32

abbrev pub cut : ℕ → Bytes → Bytes
cut c [] = if is_space c then [] else c ∷ []
cut c (d ∷ ds) = c ∷ d ∷ ds

unfoldable pub strip_end : Bytes → Bytes
strip_end [] = []
strip_end (c ∷ cs) = cut c (strip_end cs)

-- What follows the first `|`.
unfoldable pub after_bar : Bytes → Option Bytes
after_bar [] = none
after_bar (c ∷ cs) = let rest = after_bar cs in if c == b'|' then some cs else rest

-- The category of a line that is not cut short by `continue`.
unfoldable pub parse_text : Bytes → Option (ℤ × Bytes)
parse_text [] = none
parse_text (c ∷ cs) = if c == b'#' then none else elim (after_bar (c ∷ cs)) [
  | none ↦ none
  | some name ↦ if ltb_ℤ (atoi (c ∷ cs)) (pos 0) then none else some (atoi (c ∷ cs), name)
]

unfoldable pub parse_line : Bytes → Option (ℤ × Bytes)
parse_line line = parse_text (strip_end line)

unfoldable pub put_category : ℤ → Bytes → Map ℤ Bytes → Map ℤ Bytes
put_category c name m = elim (find c m) [ some _ ↦ assign c name m | none ↦ insert c name m ]

unfoldable pub load_lines : List Bytes → Map ℤ Bytes → Map ℤ Bytes
load_lines [] m = m
load_lines (l ∷ ls) m = elim (parse_line l) [
  | none ↦ load_lines ls m
  | some (c, name) ↦ load_lines ls (put_category c name m)
]

unfoldable pub print_line : ℤ → Bytes → Bytes
print_line c name = sprintf_d c ++ (b'|' ∷ (name ++ b'\n' ∷ []))

unfoldable pub print_categories : Map ℤ Bytes → Bytes
print_categories [] = []
print_categories ((c, name) ∷ m) = print_line c name ++ print_categories m
