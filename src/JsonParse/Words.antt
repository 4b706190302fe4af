-- ===== src/JsonParse/Words.antt =====
-- The check that the parser of documents makes on the count of a word.
use Prim.Native.String.{String}
use content_based.Base.{
  ◌≡◌, refl, ◌∙◌, inl, inr, none, some, ℕ, suc, ℤ, negsuc, Option-cases, Bool-cases, length, ◌==◌,
}
use content_based.Storage.{Bytes}
use content_based.JsonParse.{
  Json, Parsed, next, stop, ◌>>>◌, take_int, take_double, take_u64, take_string, optional, required,
  each, array_of,
}
use content_based.JsonParse.Messages.{Item}
use content_based.JsonParse.Items.{
  Reading, assign, on_item, item_head, item_pushed, category_names, category_ids, default_category,
  word_entry, item_words, item_parts, parse_item,
}

module _ {F : Type 0} (js : Json F) (json : js.Node) where
  open js use {Node, get_object_item, get_array_size, get_array_item, valuestring}

  -- A part goes on.
  abbrev GoesOn : (Reading js → Parsed (Reading js)) → Type 0
  GoesOn f = (m : Reading js) → (m' : Reading js) × (f m ≡ next m')

  -- A part goes on, and leaves `node` NULL.
  abbrev LeavesNull : (Reading js → Parsed (Reading js)) → Type 0
  LeavesNull f = (m : Reading js) → (m' : Reading js) × (f m ≡ next m') × (m'.node ≡ none)

  goes_then :
      (f g : Reading js → Parsed (Reading js)) → GoesOn f → LeavesNull g → LeavesNull (f >>> g)
  goes_then f g hf hg m =
      let (m', e) = hf m in let (m'', e', n) = hg m' in (m'', rw (e, e') refl, n)

  optional_int-GoesOn :
      (key : String) (absent : Reading js → Reading js) (set : ℤ → Reading js → Reading js)
      → GoesOn (optional js (assign js) json key absent (take_int js (assign js) set))
  unfolding optional take_int
  optional_int-GoesOn key absent set m = elim (Option-cases (get_object_item json key)) [
    | inl e ↦ rw e (_, refl)
    | inr s ↦ rw s.1 (_, refl)
  ]

  optional_double-GoesOn :
      (key : String) (absent : Reading js → Reading js) (set : F → Reading js → Reading js)
      → GoesOn (optional js (assign js) json key absent (take_double js (assign js) set))
  unfolding optional take_double
  optional_double-GoesOn key absent set m = elim (Option-cases (get_object_item json key)) [
    | inl e ↦ rw e (_, refl)
    | inr s ↦ rw s.1 (_, refl)
  ]

  required_u64-GoesOn :
      (key : String) (code : ℤ) (set : ℕ → Reading js → Reading js) (n : Node) (b : Bytes)
      → get_object_item json key ≡ some n
      → valuestring n ≡ some b
      → GoesOn (required js (assign js) json key code (take_u64 js (assign js) set))
  unfolding required take_u64 take_string
  required_u64-GoesOn key code set n b there text m = rw (there, text) (_, refl)

  optional_absent-LeavesNull :
      (key : String) (set : Item F → Item F) (found : Node → Reading js → Parsed (Reading js))
      → get_object_item json key ≡ none
      → LeavesNull (optional js (assign js) json key (on_item js set) found)
  unfolding optional
  optional_absent-LeavesNull key set found absent m = rw absent (_, refl, refl)

  -- A document with an id, and neither a type nor categories.
  pub record IsPlain : Type 0 where
    pub docid : Node
    pub id : Bytes
    pub has_docid : get_object_item json "docid" ≡ some docid
    pub docid_text : valuestring docid ≡ some id
    pub no_doctype : get_object_item json "doctype" ≡ none
    pub no_category : get_object_item json "category" ≡ none
    pub no_category_id : get_object_item json "categoryid" ≡ none

  item_head-LeavesNull : (now : ℤ) → IsPlain → LeavesNull (item_head js json now)
  unfolding item_head item_pushed
  item_head-LeavesNull now plain =
      goes_then _ _
        (required_u64-GoesOn _ _ _ plain.docid plain.id plain.has_docid plain.docid_text)
        (goes_then _ _ (optional_int-GoesOn _ _ _) (
          goes_then _ _ (λ m. (_, refl))
            (goes_then _ _ (optional_int-GoesOn _ _ _) (
              goes_then _ _ (optional_double-GoesOn _ _ _)
                (optional_absent-LeavesNull _ _ _ plain.no_doctype)))))

  -- The part for the default category leaves `node` alone.
  default_category-node :
      (m : Reading js) → (m' : Reading js) × (default_category js m ≡ next m') × (m'.node ≡ m.node)
  unfolding default_category
  default_category-node m = elim (Bool-cases (length m.item.category == 0)) [
    | inl e ↦ rw e (_, refl, refl)
    | inr e ↦ rw e (_, refl, refl)
  ]

  -- The first of the words has a text, and whatever it has for a count.
  pub record HasWord : Type 0 where
    pub array : Node
    pub object : Node
    pub text : Node
    pub has_array : get_object_item json "word" ≡ some array
    pub more : ℕ
    pub size : get_array_size array ≡ suc more
    pub first : get_array_item array 0 ≡ some object
    pub has_text : get_object_item object "word" ≡ some text

  item_words-refuses :
      (m : Reading js)
      → m.node ≡ none
      → HasWord
      → (m' : Reading js) × (item_words js json m ≡ stop (negsuc 205) m')
  unfolding item_words array_of each word_entry
  item_words-refuses m n word =
      rw (word.has_array, word.size, word.first, word.has_text, n) (_, refl)

  -- A document with an id as text, without type and categories, and with an array of words whose
  -- first item has a word, is refused with the code -206, whatever the item has for a count.
  pub parse_item-misreads_count :
      (now : ℤ) (item : Item F)
      → IsPlain
      → HasWord
      → (it : Item F) × (parse_item js json now item ≡ some (negsuc 205, it))
  unfolding parse_item item_parts category_names category_ids array_of
  parse_item-misreads_count now item plain word =
      let (m1, e1, n1) = item_head-LeavesNull now plain (record { node = none; item = item }) in
      let (m2, e2, n2) = default_category-node m1 in
      let (m3, e3) = item_words-refuses m2 (n2 ∙ n1) word in
      (m3.item, rw (e1, plain.no_category, plain.no_category_id, e2, e3) refl)
