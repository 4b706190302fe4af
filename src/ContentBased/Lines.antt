-- ===== src/ContentBased/Lines.antt =====
-- A category that is printed and read back.
use content_based.Base.{◌≡◌, refl, sym, ap, ◌∙◌, true, some, [], ◌∷◌, ◌++◌, ℕ, pos, arith, All}
use content_based.Storage.{Bytes}
use content_based.PeriodicLog.Decimal.{
  sprintf_d, atoi, is_digit, atoi-sprintf_d-append, sprintf_d-starts_digit, sprintf_d-IsDigits,
}
use content_based.ContentBased.Categories.{
  cut, strip_end, after_bar, parse_text, parse_line, print_line,
}

cut-append : (c d : ℕ) (a ds : Bytes) → cut c (a ++ d ∷ ds) ≡ c ∷ a ++ d ∷ ds
cut-append c d [] ds = refl
cut-append c d (e ∷ a) ds = refl

strip_end-append :
    (a b : Bytes) (d : ℕ) (ds : Bytes) → strip_end b ≡ d ∷ ds → strip_end (a ++ b) ≡ a ++ d ∷ ds
unfolding strip_end
strip_end-append [] b d ds h = h
strip_end-append (c ∷ a) b d ds h = ap (cut c) (strip_end-append a b d ds h) ∙ cut-append c d a ds

strip_end-newline : (name : Bytes) → strip_end (name ++ b'\n' ∷ []) ≡ strip_end name
unfolding strip_end
strip_end-newline [] = refl
strip_end-newline (c ∷ cs) = ap (cut c) (strip_end-newline cs)

cut_bar : (name : Bytes) → cut b'|' name ≡ b'|' ∷ name
cut_bar [] = refl
cut_bar (c ∷ cs) = refl

after_bar-append :
    (a name : Bytes) → All (λ c. is_digit c ≡ true) a → after_bar (a ++ b'|' ∷ name) ≡ some name
unfolding after_bar
after_bar-append [] name h = refl
after_bar-append (c ∷ a) name (h, hs) = ground (arith, after_bar-append a name hs)

parse_text-digit :
    (c : ℕ) (cs name : Bytes) (n : ℕ)
    → is_digit c ≡ true
    → after_bar (c ∷ cs) ≡ some name
    → atoi (c ∷ cs) ≡ pos n
    → parse_text (c ∷ cs) ≡ some (pos n, name)
unfolding parse_text
parse_text-digit c cs name n h bar number = rw (bar, number, parse_text) (ground arith)

-- The line that `flushCategory` prints of a category whose id is not negative, and whose name does
-- not end in blanks, is read by `loadCategory` as that id and that name.
pub parse_line-print_line :
    (n : ℕ) (name : Bytes)
    → strip_end name ≡ name
    → parse_line (print_line (pos n) name) ≡ some (pos n, name)
unfolding parse_line print_line strip_end
parse_line-print_line n name h =
    let whole : strip_end (b'|' ∷ (name ++ b'\n' ∷ [])) ≡ b'|' ∷ name =
      ap (cut b'|') (strip_end-newline name ∙ h) ∙ cut_bar name in
    ap parse_text
      (strip_end-append (sprintf_d (pos n)) (b'|' ∷ (name ++ b'\n' ∷ [])) b'|' name whole)
    ∙ text
  where
    text : parse_text (sprintf_d (pos n) ++ b'|' ∷ name) ≡ some (pos n, name)
    text =
        let (c, cs, e, d) = sprintf_d-starts_digit n in
        ap (λ t. parse_text (t ++ b'|' ∷ name)) e
        ∙ parse_text-digit c (cs ++ b'|' ∷ name) name n d
            (ap (λ t. after_bar (t ++ b'|' ∷ name)) (sym e)
              ∙ after_bar-append (sprintf_d (pos n)) name (sprintf_d-IsDigits n))
            (ap (λ t. atoi (t ++ b'|' ∷ name)) (sym e) ∙ atoi-sprintf_d-append n (b'|' ∷ name) refl)
