-- ===== src/JsonParse/Arrays.antt =====
-- The loops over arrays, and the code that `parse_json` answers a request with.
use Prim.Native.String.{String}
use content_based.Base.{
  ◌≡◌, refl, ap, inl, inr, false, Option, none, some, List, [], ◌∷◌, ℕ, zero, suc, ◌+◌, ◌<◌, ℤ, pos,
  negsuc, ◌==ℤ◌, if◌then◌else◌, All, Option-cases, Bool-cases, arith,
}
use content_based.Storage.{Bytes}
use content_based.JsonParse.{
  Json, Parsed, take_string, take_u64, each, array_of, any_size, forget, finish,
}
use content_based.JsonParse.Messages.{Packed, TransferRequest}
use content_based.JsonParse.Actions.{parse_action}
use content_based.JsonParse.Requests.{
  subscribe_fields, feedback_fields, parse_subscribe, parse_recommend, parse_heartbeat,
  parse_feedback, parse_message, parse_json, request_of, pack,
}
use content_based.JsonParse.Missing.{
  Gives, Part, bind-Gives, code_of, first_missing, finish-Returns, IsText, ◌and_then◌, required_u64,
  action_fields-Part, recommend_fields-Part, heartbeat_fields-Part, required_of_action,
  required_of_recommend, required_of_heartbeat, texts_of_action,
}

-- An array has an item at each index below its size.
pub record HasItems {F : Type 0} (js : Json F) : Type 0 where
  pub item_at :
      (a : js.Node) (i : ℕ)
      → i < js.get_array_size a
      → (n : js.Node) × (js.get_array_item a i ≡ some n)

abbrev pub required_of_subscribe : List (String × ℤ)
required_of_subscribe = ("userid", negsuc 299) ∷ []

abbrev pub required_of_feedback : List (String × ℤ)
required_of_feedback = ("userid", negsuc 599) ∷ []

-- The code that is owed to a request of a type; a type that no request but a document has is not
-- known here.
abbrev pub expected_code : {F : Type 0} (js : Json F) → js.Node → ℤ → Option ℤ
expected_code js json type =
    if type ==ℤ pos 1
    then first_missing js json required_of_action
    else if type ==ℤ pos 3
    then first_missing js json required_of_subscribe
    else if type ==ℤ pos 4
    then first_missing js json required_of_recommend
    else if type ==ℤ pos 5
    then first_missing js json required_of_heartbeat
    else if type ==ℤ pos 6
    then first_missing js json required_of_feedback
    else some (negsuc 887)

module _ {F : Type 0} (js : Json F) (items : HasItems js) where
  open js use {Node, get_object_item, get_array_size, get_array_item, valuestring}

  -- The items of an array are strings.
  abbrev pub AreTexts : Node → Type 0
  AreTexts a =
      (i : ℕ) (n : Node) → get_array_item a i ≡ some n → (b : Bytes) × (valuestring n ≡ some b)

  module _ {M : Type 0} where
    each-Gives :
        (a : Node) (code : ℤ) (put : ℕ → Node → M → Parsed M) (i n : ℕ)
        → i + n ≡ get_array_size a
        → ((j : ℕ) (v : Node) → get_array_item a j ≡ some v → (m : M) → Gives none (put j v m))
        → (m : M) → Gives none (each js forget a code put i n m)
    unfolding each
    each-Gives a code put i zero e h m = tt
    each-Gives a code put i (suc n) e h m =
        let (v, got) = items.item_at a i (omega arith) in
        rw got (
          bind-Gives none none (put i v m) _ (h i v got m)
            (record { gives = each-Gives a code put (suc i) n (omega arith) h }))

    array_of-Part :
        (json : Node) (key : String) (code : ℤ) (put : ℕ → Node → M → Parsed M)
        → ((a : Node)
            → get_object_item json key ≡ some a
            → (j : ℕ) (v : Node) → get_array_item a j ≡ some v
            → (m : M) → Gives none (put j v m))
        → Part none (array_of js forget json key any_size code put)
    unfolding array_of
    array_of-Part json key code put h = record {
      gives = λ m. elim (Option-cases (get_object_item json key)) [
        | inl e ↦ rw e tt
        | inr s ↦
            rw s.1 (each-Gives s.0 code put 0 (get_array_size s.0) (omega arith) (h s.0 s.1) m)
      ];
    }

  -- The value of a field, if it is there, is an array of strings.
  abbrev pub IsTextList : Node → String → Type 0
  IsTextList json key = (a : Node) → get_object_item json key ≡ some a → AreTexts a

  module _ {M : Type 0} (json : Node) where
    strings-Part :
        (key : String) (code : ℤ) (add : Bytes → M → M)
        → IsTextList json key
        → Part none (array_of js forget json key any_size code λ i. take_string js forget add)
    unfolding take_string
    strings-Part key code add h =
        array_of-Part json key code _ λ a e j v got m. rw (h a e j v got).1 tt

    u64s-Part :
        (key : String) (code : ℤ) (add : ℕ → M → M)
        → IsTextList json key
        → Part none (array_of js forget json key any_size code λ i. take_u64 js forget add)
    unfolding take_string take_u64
    u64s-Part key code add h =
        array_of-Part json key code _ λ a e j v got m. rw (h a e j v got).1 tt

  subscribe_fields-Part :
      (json : Node)
      → IsText js json "userid"
      → IsTextList json "srp"
      → IsTextList json "circle"
      → Part (first_missing js json required_of_subscribe) (subscribe_fields js json)
  unfolding subscribe_fields first_missing
  subscribe_fields-Part json user srp circle =
      required_u64 js json _ _ _ user
      and_then strings-Part json _ _ _ srp
      and_then strings-Part json _ _ _ circle

  feedback_fields-Part :
      (json : Node)
      → IsText js json "userid"
      → IsTextList json "returnlist"
      → Part (first_missing js json required_of_feedback) (feedback_fields js json)
  unfolding feedback_fields first_missing
  feedback_fields-Part json user list =
      required_u64 js json _ _ _ user and_then u64s-Part json _ _ _ list

  -- The fields of a request that are read as text, and as arrays of texts, are that.
  pub record IsTyped (json : Node) : Type 0 where
    pub texts : All (IsText js json) ("heartbeat" ∷ texts_of_action)
    pub lists : All (IsTextList json) ("srp" ∷ "circle" ∷ "returnlist" ∷ [])

  -- What `parse_message` returns, where it packs a message.
  abbrev Answers : Option ℤ → Option (ℤ × Option (Packed F)) → Type 0
  Answers o r = (p : Option (Packed F)) × (r ≡ some (code_of o, p))

  packed :
      {M : Type 0} {o : Option ℤ} {f : M → Parsed M} (wrap : M → Packed F) (m : M)
      → Part o f
      → Answers o (pack js wrap (finish (f m)))
  packed {o = o} {f = f} wrap m part =
      let (m', e) = finish-Returns o (f m) (part.gives m) in (some (wrap m'), ap (pack js wrap) e)

  parse_message-code :
      (type : ℤ) (json : Node) (now : ℤ)
      → (type ==ℤ pos 2) ≡ false
      → IsTyped json
      → Answers (expected_code js json type) (parse_message js type json now)
  unfolding parse_message parse_action parse_subscribe parse_recommend parse_heartbeat
      parse_feedback
  parse_message-code type json now not_item typed =
      let (heart, (user, (doc, (location, (srp, (dislike, (zone, _))))))) = typed.texts in
      let (srps, (circles, (returns, _))) = typed.lists in
      elim (Bool-cases (type ==ℤ pos 1)) [
        | inl e ↦ rw e (
            packed _ _
              (action_fields-Part js json (user, (doc, (location, (srp, (dislike, (zone, tt))))))))
        | inr e1 ↦ elim (Bool-cases (type ==ℤ pos 3)) [
          | inl e ↦ rw (e1, not_item, e) (packed _ _ (subscribe_fields-Part json user srps circles))
          | inr e3 ↦ elim (Bool-cases (type ==ℤ pos 4)) [
            | inl e ↦
                rw (e1, not_item, e3, e)
                  (packed _ _ (recommend_fields-Part js json (user, (zone, tt))))
            | inr e4 ↦ elim (Bool-cases (type ==ℤ pos 5)) [
              | inl e ↦
                  rw (e1, not_item, e3, e4, e) (packed _ _ (heartbeat_fields-Part js json heart))
              | inr e5 ↦ elim (Bool-cases (type ==ℤ pos 6)) [
                | inl e ↦
                    rw (e1, not_item, e3, e4, e5, e)
                      (packed _ _ (feedback_fields-Part json user returns))
                | inr e6 ↦ rw (e1, not_item, e3, e4, e5, e6) (none, refl)
              ]
            ]
          ]
        ]
      ]

  request_of-Answers :
      (type : ℤ) (t : TransferRequest F) (o : Option ℤ) (r : Option (ℤ × Option (Packed F)))
      → Answers o r
      → (t' : TransferRequest F) × (request_of js type t r ≡ some (code_of o, t'))
        × (t'.main_protocol ≡ type)
  request_of-Answers type t o r (none, e) =
      (record t { main_protocol = type }, ap (request_of js type t) e, refl)
  request_of-Answers type t o r (some p, e) =
      (record { main_protocol = type; protocol = some p }, ap (request_of js type t) e, refl)

  -- A text that is parsed, with a type other than that of documents, and whose fields that are
  -- read as texts and arrays of texts are that, is never read through a null pointer: parse_json
  -- returns 0, or the code of the first field that the type requires and that is missing, or -888
  -- for an unknown type, and sets the protocol of the request to the type. Arrays are supposed to
  -- have an item at each index below their size.
  pub parse_json-code :
      (json_buffer : Bytes) (now : ℤ) (t : TransferRequest F) (json node : Node)
      → js.parse json_buffer ≡ some json
      → get_object_item json "type" ≡ some node
      → (js.valueint node ==ℤ pos 2) ≡ false
      → IsTyped json
      → (t' : TransferRequest F) × (parse_json js json_buffer now t
          ≡ some (code_of (expected_code js json (js.valueint node)), t'))
        × (t'.main_protocol ≡ js.valueint node)
  unfolding parse_json
  parse_json-code json_buffer now t json node parsed typed not_item fields =
      rw (parse_json, parsed, typed)
        (request_of-Answers (js.valueint node) t (expected_code js json (js.valueint node)) _
          (parse_message-code (js.valueint node) json now not_item fields))
