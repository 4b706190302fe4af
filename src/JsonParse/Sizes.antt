-- ===== src/JsonParse/Sizes.antt =====
-- What a document holds that was parsed without an error.
use content_based.Base.{
  ◌≡◌, refl, subst, inl, inr, false, Option, none, some, List, [], ◌∷◌, ◌++◌, ℕ, suc, ◌+◌, ◌<◌, ℤ,
  pos, negsuc, length, length-append, Option-cases, Bool-cases, arith, ◌==◌,
}
use content_based.JsonParse.{
  Json, Parsed, next, stop, reads_null, finish, take_int, array_of, forget,
}
use content_based.JsonParse.Messages.{Item, ItemTag}
use content_based.JsonParse.Items.{
  Reading, category_names, category_ids, default_category, word_entry, item_words, item_parts,
  parse_item, without_locals,
}
use content_based.JsonParse.Keeping.{After, Step, ◌and_then◌, each_all-After}
use content_based.JsonParse.ItemParts.{
  Sized, strings_of-Keeps, powers-Keeps, item_head-Keeps, item_srps-Keeps, item_circles-Keeps,
  item_top-Keeps, item_zones-Keeps, item_source-Keeps, item_tags-Keeps,
}

module _ {F : Type 0} (js : Json F) (json : js.Node) where
  open js use {Node, get_object_item, get_array_size}

  -- The categories: of the number of words, nothing changes.
  abbrev WordsAre : ℕ → ℕ → ℕ → Type 0
  WordsAre w c n = n ≡ w

  -- There is a category.
  abbrev Categorised : ℕ → ℕ → ℕ → Type 0
  Categorised w c n = (0 < c) × (n ≡ w)

  category_names-Keeps :
      (w : ℕ)
      → Step (Sized js json (WordsAre w)) (category_names js json) (Sized js json (WordsAre w))
  unfolding category_names
  category_names-Keeps w = strings_of-Keeps js json (WordsAre w) _ _ _ (λ v m p. p)

  category_ids-Keeps :
      (w : ℕ)
      → Step (Sized js json (WordsAre w)) (category_ids js json) (Sized js json (WordsAre w))
  unfolding category_ids take_int
  category_ids-Keeps w = powers-Keeps js json (WordsAre w) _ _ _ _ _ (λ i n m p. p)

  default_category-Keeps :
      (w : ℕ)
      → Step (Sized js json (WordsAre w)) (default_category js) (Sized js json (Categorised w))
  unfolding default_category
  default_category-Keeps w = record {
    ensures = λ m p. elim (Bool-cases (length m.item.category == 0)) [
      | inl e ↦ rw e (one_more m.item.category _, p)
      | inr e ↦ rw e (some_there (length m.item.category) e, p)
    ];
  }
    where
      one_more : (xs : List (ItemTag F)) (x : ItemTag F) → 0 < length (xs ++ x ∷ [])
      one_more [] x = omega arith
      one_more (y ∷ xs) x = omega arith

      some_there : (n : ℕ) → (n == 0) ≡ false → 0 < n
      some_there n e = ground arith

  -- The items of an array, and none where it is not there.
  abbrev pub size_of : Option Node → ℕ
  size_of none = 0
  size_of (some a) = get_array_size a

  module _ (w : ℕ) where
    word_entry-After :
        (i : ℕ) (object : Node) (m : Reading js)
        → Sized js json (Categorised (w + i)) m
        → After (Sized js json (Categorised (w + suc i))) (word_entry js i object m)
    unfolding word_entry
    word_entry-After i object m p = elim (Option-cases (get_object_item object "word")) [
      | inl e ↦ rw e tt
      | inr one ↦ elim (Option-cases m.node) [
        | inl e ↦ rw (one.1, e) tt
        | inr node ↦ elim (Option-cases (js.valuestring one.0)) [
          | inl e ↦ rw (one.1, node.1, e) tt
          | inr text ↦ elim (Option-cases (get_object_item object "count")) [
            | inl e ↦ rw (one.1, node.1, text.1, e) tt
            | inr two ↦
                rw (one.1, node.1, text.1, two.1)
                  (p.0, omega (arith, p.1, length-append m.item.word _))
          ]
        ]
      ]
    ]

    item_words-adds :
        Step
          (Sized js json (Categorised w))
          (item_words js json)
          (Sized js json (Categorised (w + size_of (get_object_item json "word"))))
    unfolding item_words array_of
    item_words-adds = record {
      ensures = λ m p. elim (Option-cases (get_object_item json "word")) [
        | inl e ↦ rw e (p.0, omega (arith, p.1))
        | inr s ↦ rw s.1 (
            each_all-After js json forget (λ i. Sized js json (Categorised (w + i))) s.0 203
              (word_entry js) (get_array_size s.0) (λ j v m p. p) word_entry-After m
              (p.0, omega (arith, p.1)))
      ];
    }

  item_parts-Sized :
      (now : ℤ) (w : ℕ)
      → Step
          (Sized js json (WordsAre w))
          (item_parts js json now)
          (Sized js json (Categorised (w + size_of (get_object_item json "word"))))
  unfolding item_parts
  item_parts-Sized now w =
      let before = WordsAre w in
      let after = Categorised (w + size_of (get_object_item json "word")) in
      item_head-Keeps js json before now
      and_then category_names-Keeps w
      and_then category_ids-Keeps w
      and_then default_category-Keeps w
      and_then item_words-adds w
      and_then item_srps-Keeps js json after
      and_then item_circles-Keeps js json after
      and_then item_top-Keeps js json after
      and_then item_zones-Keeps js json after
      and_then item_source-Keeps js json after
      and_then item_tags-Keeps js json after

  finished :
      (P : Reading js → Type 0) (p : Parsed (Reading js)) (it : Item F)
      → After P p
      → without_locals js (finish p) ≡ some (pos 0, it)
      → (m : Reading js) × (m.item ≡ it) × P m
  finished P (next m) it h e = (m, cc e, h)
  finished P (stop (pos n) m) it h e = absurd h
  finished P (stop (negsuc n) m) it h e = absurd (cc e)
  finished P reads_null it h e = absurd (cc e)

  -- A document for which parse_item returns 0 has a category, and as many words as it had before
  -- and the array of words has items.
  pub parse_item-sizes :
      (now : ℤ) (item it : Item F)
      → parse_item js json now item ≡ some (pos 0, it)
      → (0 < length it.category)
        × (length it.word ≡ length item.word + size_of (get_object_item json "word"))
  unfolding parse_item
  parse_item-sizes now item it run =
      let (m, e, p) =
        finished
          (Sized js json (Categorised (length item.word + size_of (get_object_item json "word")))) _
          it
          ((item_parts-Sized now (length item.word)).ensures (record { node = none; item = item })
            refl)
          run in
      subst
        (λ t.
          Categorised (length item.word + size_of (get_object_item json "word")) (length t.category)
            (length t.word))
        e p
