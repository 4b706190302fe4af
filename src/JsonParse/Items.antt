-- ===== src/JsonParse/Items.antt =====
-- src/framework/CF_framework_jparse.h: the parser of a document, `parse_item`, in the order of its
-- parts. What the local variable `node` points to is kept, since the loop over the words reads it.
use Prim.Native.String.{String}
use content_based.Base.{
  Option, none, some, List, [], ◌∷◌, ◌++◌, if◌then◌else◌, ℕ, zero, suc, ℤ, pos, negsuc, ◌==ℤ◌, ◌==◌,
  length,
}
use content_based.Storage.{Bytes}
use content_based.JsonParse.{
  Json, Parsed, next, stop, reads_null, bind, ◌>>>◌, finish, on_node, take_int, take_double,
  take_string, take_u64, required, optional, array_of, any_size, forget,
}
use content_based.JsonParse.Messages.{Item, ItemTag, TopInfo, ItemSource}

-- `mutable_category(i)` and its like, for an index in range.
abbrev pub update {ℓ} : {A : Type ℓ} → ℕ → (A → A) → List A → List A
update i f [] = []
update zero f (x ∷ xs) = f x ∷ xs
update (suc i) f (x ∷ xs) = x ∷ update i f xs

module _ {F : Type 0} (js : Json F) where
  open js use {Node, get_object_item, valueint, valuestring, zero_float}

  pub record Reading : Type 0 where
    pub node : Option Node
    pub item : Item F

  abbrev pub assign : Option Node → Reading → Reading
  assign n m = record m { node = n }

  abbrev pub on_item : (Item F → Item F) → Reading → Reading
  on_item f m = record m { item = f m.item }

  -- A tag that is added, with one of its fields set.
  abbrev pub named : Bytes → ItemTag F
  named name = record { tag_name = name; tag_id = pos 0; tag_power = zero_float }

  -- `if(num != ...) return code;`.
  abbrev pub same_size : ℤ → (Item F → ℕ) → ℕ → Reading → Parsed Reading
  same_size code size num m = if num == size m.item then next m else stop code m

  -- An array whose strings are added one by one.
  abbrev pub strings_of : Node → String → ℤ → (Bytes → Item F → Item F) → Reading → Parsed Reading
  strings_of json key code add =
      array_of js assign json key any_size code λ i. take_string js assign λ v. on_item (add v)

  unfoldable pub item_pushed : ℤ → Reading → Parsed Reading
  item_pushed now m = next (on_item (λ t. record t { push_time = now }) m)

  unfoldable pub item_head : Node → ℤ → Reading → Parsed Reading
  item_head json now =
      required js assign json "docid" (negsuc 199)
        (take_u64 js assign λ v. on_item λ t. record t { item_id = v })
      >>> optional js assign json "publictime" (on_item λ t. record t { publish_time = pos 0 })
          (take_int js assign λ v. on_item λ t. record t { publish_time = v })
      >>> item_pushed now
      >>> optional js assign json "picturenumber" (on_item λ t. record t { picture_num = pos 0 })
          (take_int js assign λ v. on_item λ t. record t { picture_num = v })
      >>> optional js assign json "power" (on_item λ t. record t { power = zero_float })
          (take_double js assign λ v. on_item λ t. record t { power = v })
      >>> optional js assign json "doctype" (on_item λ t. record t { item_type = pos 0 })
          (take_int js assign λ v. on_item λ t. record t { item_type = v })

  unfoldable pub category_names : Node → Reading → Parsed Reading
  category_names json =
      strings_of json "category" (negsuc 200)
        λ v t. record t { category = t.category ++ named v ∷ [] }

  unfoldable pub category_ids : Node → Reading → Parsed Reading
  category_ids json =
      array_of js assign json "categoryid" (same_size (negsuc 201) λ t. length t.category)
        (negsuc 202)
        λ i. take_int js assign λ v.
          on_item λ t. record t { category = update i (λ c. record c { tag_id = v }) t.category }

  -- An item without categories is put into category 13.
  unfoldable pub default_category : Reading → Parsed Reading
  default_category m =
      if length m.item.category == 0
      then next (
          on_item
            (λ t. record t { category = t.category ++ record (named []) { tag_id = pos 13 } ∷ [] })
            m)
      else next m

  -- One word. Of `node_two`, the count, the source does not ask whether it is NULL: it asks it of
  -- `node`, which an earlier part has left.
  unfoldable pub word_entry : ℕ → Node → Reading → Parsed Reading
  word_entry i object m = on_node (get_object_item object "word") (stop (negsuc 204) m) λ node_one.
      on_node m.node (stop (negsuc 205) m) λ node. on_node (valuestring node_one) reads_null λ w.
        on_node (get_object_item object "count") reads_null λ node_two. next (
          on_item
            (λ t. record t { word = t.word ++ record { word = w; count = valueint node_two } ∷ [] })
            m)

  unfoldable pub item_words : Node → Reading → Parsed Reading
  item_words json = array_of js forget json "word" any_size (negsuc 203) word_entry

  unfoldable pub item_srps : Node → Reading → Parsed Reading
  item_srps json =
      strings_of json "srp" (negsuc 206) (λ v t. record t { srp = t.srp ++ named v ∷ [] })
      >>> array_of js assign json "srppower" (same_size (negsuc 207) λ t. length t.srp) (negsuc 208)
          λ i.
            take_double js assign
              λ v. on_item λ t. record t { srp = update i (λ c. record c { tag_power = v }) t.srp }

  unfoldable pub item_circles : Node → Reading → Parsed Reading
  item_circles json =
      strings_of json "circle" (negsuc 209) λ v t. record t { circle = t.circle ++ named v ∷ [] }

  abbrev pub on_top : (TopInfo → TopInfo) → Item F → Item F
  on_top f t = record t { top_info = f t.top_info }

  unfoldable pub item_top : Node → Reading → Parsed Reading
  item_top json =
      optional js assign json "topflag" (on_item (on_top λ ti. record ti { top_type = pos 0 }))
        λ n m.
          let m' = on_item (on_top λ ti. record ti { top_type = valueint n }) m in
          if valueint n ==ℤ pos 0
          then next m'
          else bind
              (strings_of json "topsrp" (negsuc 210)
                (λ v. on_top λ ti. record ti { top_srp_id = ti.top_srp_id ++ v ∷ [] }) m')
              (strings_of json "topcircle" (negsuc 211)
                λ v. on_top λ ti. record ti { top_circle_id = ti.top_circle_id ++ v ∷ [] })

  unfoldable pub item_zones : Node → Reading → Parsed Reading
  item_zones json = strings_of json "zone" (negsuc 212) λ v t. record t { zone = t.zone ++ v ∷ [] }

  abbrev pub on_source : (ItemSource → ItemSource) → Item F → Item F
  on_source f t = record t { data_source = f t.data_source }

  unfoldable pub item_source : Node → Reading → Parsed Reading
  item_source json =
      optional js assign json "sourcename" (on_item (on_source λ s. record s { source_name = [] }))
        (take_string js assign λ v. on_item (on_source λ s. record s { source_name = v }))
      >>> optional js assign json "sourceid" (on_item (on_source λ s. record s { source_id = 0 }))
          (take_u64 js assign λ v. on_item (on_source λ s. record s { source_id = v }))

  unfoldable pub item_tags : Node → Reading → Parsed Reading
  item_tags json =
      strings_of json "tag" (negsuc 206) (λ v t. record t { tag = t.tag ++ named v ∷ [] })
      >>> array_of js assign json "tagid" (same_size (negsuc 207) λ t. length t.tag) (negsuc 208)
          (λ i. take_u64 js assign λ v.
            on_item λ t. record t {
              tag = update i (λ c. record c { tag_id = js.narrow_tag_id v }) t.tag;
            })
      >>> array_of js assign json "tagpower" (same_size (negsuc 207) λ t. length t.tag) (negsuc 208)
          λ i.
            take_double js assign
              λ v. on_item λ t. record t { tag = update i (λ c. record c { tag_power = v }) t.tag }

  unfoldable pub item_parts : Node → ℤ → Reading → Parsed Reading
  item_parts json now =
      item_head json now
      >>> category_names json
      >>> category_ids json
      >>> default_category
      >>> item_words json
      >>> item_srps json
      >>> item_circles json
      >>> item_top json
      >>> item_zones json
      >>> item_source json
      >>> item_tags json

  -- The item that a parser has filled, without the local variables.
  abbrev pub without_locals : Option (ℤ × Reading) → Option (ℤ × Item F)
  without_locals none = none
  without_locals (some (code, m)) = some (code, m.item)

  -- `now` is what `time(NULL)` gives.
  unfoldable pub parse_item : Node → ℤ → Item F → Option (ℤ × Item F)
  parse_item json now item =
      without_locals (finish (item_parts json now (record { node = none; item = item })))
