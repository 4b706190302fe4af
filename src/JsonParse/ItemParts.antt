-- ===== src/JsonParse/ItemParts.antt =====
-- Which parts of the parser of documents leave the numbers of categories and of words alone.
use Prim.Native.String.{String}
use content_based.Base.{inl, inr, Option, ℕ, ℤ, pos, negsuc, length, Bool-cases, ◌==◌, ◌==ℤ◌}
use content_based.Storage.{Bytes}
use content_based.JsonParse.{
  Json, Parsed, take_int, take_double, take_string, take_u64, required, optional, array_of,
  any_size,
}
use content_based.JsonParse.Messages.{Item}
use content_based.JsonParse.Items.{
  Reading, assign, on_item, same_size, strings_of, item_head, item_pushed, item_srps, item_circles,
  item_top, item_zones, item_source, item_tags,
}
use content_based.JsonParse.Keeping.{
  After, Step, ◌and_then◌, required-Keeps, optional-Keeps, array_of-Keeps, take_int-Keeps,
  take_double-Keeps, take_string-Keeps, take_u64-Keeps,
}

module _ {F : Type 0} (js : Json F) (json : js.Node) where
  open js use {Node, get_object_item, get_array_size}

  -- A claim on the numbers of categories and of words.
  abbrev pub Sized : (ℕ → ℕ → Type 0) → Reading js → Type 0
  Sized Q m = Q (length m.item.category) (length m.item.word)

  module _ (Q : ℕ → ℕ → Type 0) where
    abbrev kept : (v : Option Node) (m : Reading js) → Sized Q m → Sized Q (assign js v m)
    kept v m p = p

    pub strings_of-Keeps :
        (key : String) (k : ℕ) (add : Bytes → Item F → Item F)
        → ((v : Bytes) (m : Reading js) → Sized Q m → Sized Q (on_item js (add v) m))
        → Step (Sized Q) (strings_of js json key (negsuc k) add) (Sized Q)
    strings_of-Keeps key k add h =
        array_of-Keeps js json (assign js) (Sized Q) kept key any_size k _ (λ n m p. p)
          λ i. take_string-Keeps js json (assign js) (Sized Q) kept _ h

    same_size-Keeps :
        (k : ℕ) (size : Item F → ℕ) (n : ℕ) (m : Reading js)
        → Sized Q m
        → After (Sized Q) (same_size js (negsuc k) size n m)
    same_size-Keeps k size n m p = elim (Bool-cases (n == size m.item)) [
      | inl e ↦ rw e p
      | inr e ↦ rw e tt
    ]

    u64-Keeps :
        (key : String) (k : ℕ) (set : ℕ → Reading js → Reading js)
        → ((v : ℕ) (m : Reading js) → Sized Q m → Sized Q (set v m))
        → Step
            (Sized Q)
            (required js (assign js) json key (negsuc k) (take_u64 js (assign js) set))
            (Sized Q)
    u64-Keeps key k set h =
        required-Keeps js json (assign js) (Sized Q) kept key k _
          (take_u64-Keeps js json (assign js) (Sized Q) kept set h)

    int-Keeps :
        (key : String) (absent : Reading js → Reading js) (set : ℤ → Reading js → Reading js)
        → ((m : Reading js) → Sized Q m → Sized Q (absent m))
        → ((v : ℤ) (m : Reading js) → Sized Q m → Sized Q (set v m))
        → Step
            (Sized Q)
            (optional js (assign js) json key absent (take_int js (assign js) set))
            (Sized Q)
    int-Keeps key absent set ha h =
        optional-Keeps js json (assign js) (Sized Q) kept key absent _ ha
          (take_int-Keeps js json (assign js) (Sized Q) kept set h)

    found-Keeps :
        (key : String) (absent : Reading js → Reading js)
        (found : Node → Reading js → Parsed (Reading js))
        → ((m : Reading js) → Sized Q m → Sized Q (absent m))
        → ((n : Node) (m : Reading js) → Sized Q m → After (Sized Q) (found n m))
        → Step (Sized Q) (optional js (assign js) json key absent found) (Sized Q)
    found-Keeps = optional-Keeps js json (assign js) (Sized Q) kept

    double-found :
        (set : F → Reading js → Reading js)
        → ((v : F) (m : Reading js) → Sized Q m → Sized Q (set v m))
        → (n : Node) (m : Reading js) → Sized Q m
        → After (Sized Q) (take_double js (assign js) set n m)
    double-found = take_double-Keeps js json (assign js) (Sized Q) kept

    string-found :
        (set : Bytes → Reading js → Reading js)
        → ((v : Bytes) (m : Reading js) → Sized Q m → Sized Q (set v m))
        → (n : Node) (m : Reading js) → Sized Q m
        → After (Sized Q) (take_string js (assign js) set n m)
    string-found = take_string-Keeps js json (assign js) (Sized Q) kept

    u64-found :
        (set : ℕ → Reading js → Reading js)
        → ((v : ℕ) (m : Reading js) → Sized Q m → Sized Q (set v m))
        → (n : Node) (m : Reading js) → Sized Q m
        → After (Sized Q) (take_u64 js (assign js) set n m)
    u64-found = take_u64-Keeps js json (assign js) (Sized Q) kept

    pub item_pushed-Keeps : (now : ℤ) → Step (Sized Q) (item_pushed js now) (Sized Q)
    unfolding item_pushed
    item_pushed-Keeps now = record { ensures = λ m p. p }

    pub item_head-Keeps : (now : ℤ) → Step (Sized Q) (item_head js json now) (Sized Q)
    unfolding item_head
    item_head-Keeps now =
        u64-Keeps _ _ _ (λ v m p. p)
        and_then int-Keeps _ _ _ (λ m p. p) (λ v m p. p)
        and_then item_pushed-Keeps now
        and_then int-Keeps _ _ _ (λ m p. p) (λ v m p. p)
        and_then found-Keeps _ _ _ (λ m p. p) (double-found _ λ v m p. p)
        and_then int-Keeps _ _ _ (λ m p. p) (λ v m p. p)

    pub powers-Keeps :
        (key : String) (k l : ℕ) (size : Item F → ℕ)
        (put : ℕ → Node → Reading js → Parsed (Reading js))
        → ((i : ℕ) (n : Node) (m : Reading js) → Sized Q m → After (Sized Q) (put i n m))
        → Step
            (Sized Q)
            (array_of js (assign js) json key (same_size js (negsuc k) size) (negsuc l) put)
            (Sized Q)
    powers-Keeps key k l size put h =
        array_of-Keeps js json (assign js) (Sized Q) kept key _ l put (same_size-Keeps k size) h

    pub item_srps-Keeps : Step (Sized Q) (item_srps js json) (Sized Q)
    unfolding item_srps
    item_srps-Keeps =
        strings_of-Keeps _ _ _ (λ v m p. p)
        and_then powers-Keeps _ _ _ _ _ (λ i. double-found _ λ v m p. p)

    pub item_circles-Keeps : Step (Sized Q) (item_circles js json) (Sized Q)
    unfolding item_circles
    item_circles-Keeps = strings_of-Keeps _ _ _ (λ v m p. p)

    pub item_top-Keeps : Step (Sized Q) (item_top js json) (Sized Q)
    unfolding item_top
    item_top-Keeps =
        found-Keeps _ _ _ (λ m p. p)
          λ n m p. elim (Bool-cases (js.valueint n ==ℤ pos 0)) [
            | inl e ↦ rw e p
            | inr e ↦ rw e (
                (strings_of-Keeps _ _ _ (λ v m p. p)
                    and_then strings_of-Keeps _ _ _ (λ v m p. p)).ensures
                  _ p)
          ]

    pub item_zones-Keeps : Step (Sized Q) (item_zones js json) (Sized Q)
    unfolding item_zones
    item_zones-Keeps = strings_of-Keeps _ _ _ (λ v m p. p)

    pub item_source-Keeps : Step (Sized Q) (item_source js json) (Sized Q)
    unfolding item_source
    item_source-Keeps =
        found-Keeps _ _ _ (λ m p. p) (string-found _ λ v m p. p)
        and_then found-Keeps _ _ _ (λ m p. p) (u64-found _ λ v m p. p)

    pub item_tags-Keeps : Step (Sized Q) (item_tags js json) (Sized Q)
    unfolding item_tags
    item_tags-Keeps =
        strings_of-Keeps _ _ _ (λ v m p. p)
        and_then powers-Keeps _ _ _ _ _ (λ i. u64-found _ λ v m p. p)
        and_then powers-Keeps _ _ _ _ _ (λ i. double-found _ λ v m p. p)
