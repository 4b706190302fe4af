-- ===== src/Examples/Requests.antt =====
-- The theorems on requests in JSON, for texts of which only one is known.
use Prim.Native.String.{String}
use text.Mathlib.Text.{◌==◌}
use content_based.Base.{
  ◌≡◌, refl, ap, Bool, true, false, Option, none, some, List, [], ◌∷◌, if◌then◌else◌, ℕ, ◌<◌, ℤ,
  pos, negsuc, length, get_elem?, get_elem?-some,
}
use content_based.Storage.{Bytes}
use content_based.JsonParse.{Json}
use content_based.JsonParse.Messages.{Item, TransferRequest, empty_item}
use content_based.JsonParse.Items.{parse_item}
use content_based.JsonParse.Requests.{parse_json}
use content_based.JsonParse.Missing.{code_of, IsText}
use content_based.JsonParse.Arrays.{HasItems, IsTyped, parse_json-code}
use content_based.JsonParse.Sizes.{parse_item-sizes}
use content_based.JsonParse.Words.{parse_item-misreads_count}

-- A number, a text, a word with its count, an array, or an object.
pub data Value : Type 0 where
  number : ℤ → Value
  a_text : Bytes → Value
  a_word : Bytes → ℤ → Value

-- What a field of an object is.
pub data Field : Type 0 where
  value : Value → Field
  array : List Value → Field

pub data Node : Type 0 where
  part : Field → Node
  object : List (String × Field) → Node

abbrev field : List (String × Field) → String → Option Node
field [] key = none
field ((k, n) ∷ fields) key =
    let rest = field fields key in if k == key then some (part n) else rest

abbrev get : Node → String → Option Node
get (object fields) key = field fields key
get (part (value (a_word w c))) key =
    if key == "word"
    then some (part (value (a_text w)))
    else if key == "count"
    then some (part (value (number c)))
    else none
get _ key = none

abbrev items_of : Node → List Value
items_of (part (array vs)) = vs
items_of _ = []

abbrev item_of : Option Value → Option Node
item_of none = none
item_of (some v) = some (part (value v))

abbrev number_of : Node → ℤ
number_of (part (value (number n))) = n
number_of _ = pos 0

abbrev text_of : Node → Option Bytes
text_of (part (value (a_text b))) = some b
text_of _ = none

-- The first byte of a text, as its number.
abbrev first_byte : Bytes → ℕ
first_byte [] = 0
first_byte (b ∷ bs) = b

-- A library for which every text but the empty one is `document`.
abbrev pub reading : Node → Json ℤ
reading document = record {
  Node = Node;
  parse = λ b. if◌then◌else◌ (is_empty b) none (some document);
  get_object_item = get;
  get_array_size = λ a. length (items_of a);
  get_array_item = λ a i. item_of (get_elem? (items_of a) i);
  valueint = number_of;
  valuedouble = number_of;
  valuestring = text_of;
  strtoval_u64 = first_byte;
  narrow_tag_id = λ n. pos n;
  zero_float = pos 0;
}
  where
    is_empty : Bytes → Bool
    is_empty [] = true
    is_empty (b ∷ bs) = false

module _ (document : Node) where
  -- What `IsText` asks, as a test.
  abbrev holds_text : Option Node → Bool
  holds_text none = true
  holds_text (some (part (value (a_text b)))) = true
  holds_text (some _) = false

  found_text :
      (o : Option Node)
      → holds_text o ≡ true
      → (n : Node) → o ≡ some n
      → (b : Bytes) × (text_of n ≡ some b)
  found_text none h n e = absurd (cc e)
  found_text (some (part (value (a_text b)))) h n e = (b, cc e)
  found_text (some (part (value (number z)))) h n e = absurd (cc h)
  found_text (some (part (value (a_word w c)))) h n e = absurd (cc h)
  found_text (some (part (array vs))) h n e = absurd (cc h)
  found_text (some (object fs)) h n e = absurd (cc h)

  pub reading-HasItems : HasItems (reading document)
  reading-HasItems = record { item_at = at }
    where
      at :
          (a : Node) (i : ℕ)
          → i < length (items_of a)
          → (n : Node) × (item_of (get_elem? (items_of a) i) ≡ some n)
      at a i h = let (v, e) = get_elem?-some (items_of a) i h in (part (value v), ap item_of e)

-- A click without the name of its document.
abbrev pub a_click : Node
a_click = object (
    ("type", value (number (pos 1)))
    ∷ ("clicktime", value (number (pos 99000)))
    ∷ ("userid", value (a_text (7 ∷ [])))
    ∷ [])

abbrev nothing : TransferRequest ℤ
nothing = record { main_protocol = pos 0; protocol = none }

a_click-IsTyped : IsTyped (reading a_click) (reading-HasItems a_click) a_click
a_click-IsTyped = record {
  texts = (
    found_text a_click none refl,
    (
      found_text a_click (some (part (value (a_text (7 ∷ []))))) refl,
      (
        found_text a_click none refl,
        (
          found_text a_click none refl,
          (
            found_text a_click none refl,
            (found_text a_click none refl, (found_text a_click none refl, tt)),
          ),
        ),
      ),
    ),
  );
  lists = ((λ a e. absurd (cc e)), ((λ a e. absurd (cc e)), ((λ a e. absurd (cc e)), tt)));
}

parse_json-code_example :
    (t' : TransferRequest ℤ) × (parse_json (reading a_click) (1 ∷ []) (pos 0) nothing
      ≡ some (negsuc 102, t'))
    × (t'.main_protocol ≡ pos 1)
unfolding content_based.JsonParse.Missing.first_missing
parse_json-code_example =
    parse_json-code (reading a_click) (reading-HasItems a_click) (1 ∷ []) (pos 0) nothing a_click
      (part (value (number (pos 1)))) refl refl refl a_click-IsTyped

-- A document with two words and neither a type nor categories.
abbrev words : Field
words = array (a_word (5 ∷ []) (pos 3) ∷ a_word (6 ∷ []) (pos 1) ∷ [])

abbrev plain : Node
plain = object (("docid", value (a_text (9 ∷ []))) ∷ ("word", words) ∷ [])

abbrev typed : Node
typed = object (
    ("docid", value (a_text (9 ∷ []))) ∷ ("doctype", value (number (pos 2))) ∷ ("word", words) ∷ [])

abbrev no_item : Item ℤ
no_item = empty_item (pos 0)

-- What is made of it, when it has a type.
abbrev parsed_item : Option (ℤ × Item ℤ) → Item ℤ
parsed_item none = no_item
parsed_item (some (code, it)) = it

abbrev typed_item : Item ℤ
typed_item = parsed_item (parse_item (reading typed) typed (pos 100) no_item)

parse_item-sizes_example : (0 < length typed_item.category) × (length typed_item.word ≡ 2)
unfolding parse_item content_based.JsonParse.Items.item_parts
    content_based.JsonParse.Items.item_head content_based.JsonParse.required
    content_based.JsonParse.take_u64 content_based.JsonParse.optional
    content_based.JsonParse.Items.item_pushed content_based.JsonParse.take_int
    content_based.JsonParse.Items.category_names content_based.JsonParse.array_of
    content_based.JsonParse.Items.category_ids content_based.JsonParse.Items.default_category
    content_based.JsonParse.Items.item_words content_based.JsonParse.each
    content_based.JsonParse.Items.word_entry content_based.JsonParse.Items.item_srps
    content_based.JsonParse.Items.item_circles content_based.JsonParse.Items.item_top
    content_based.JsonParse.Items.item_source content_based.JsonParse.Items.item_tags
    content_based.JsonParse.Items.item_zones content_based.JsonParse.take_double
    content_based.JsonParse.take_string
parse_item-sizes_example = parse_item-sizes (reading typed) typed (pos 100) no_item typed_item refl

parse_item-misreads_count_example :
    (it : Item ℤ) × (parse_item (reading plain) plain (pos 100) no_item ≡ some (negsuc 205, it))
parse_item-misreads_count_example =
    parse_item-misreads_count (reading plain) plain (pos 100) no_item
      (record {
        docid = part (value (a_text (9 ∷ [])));
        id = 9 ∷ [];
        has_docid = refl;
        docid_text = refl;
        no_doctype = refl;
        no_category = refl;
        no_category_id = refl;
      })
      (record {
        array = part words;
        object = part (value (a_word (5 ∷ []) (pos 3)));
        text = part (value (a_text (5 ∷ [])));
        has_array = refl;
        more = 1;
        size = refl;
        first = refl;
        has_text = refl;
      })
