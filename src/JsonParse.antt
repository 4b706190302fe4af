-- ===== src/JsonParse.antt =====
-- src/framework/CF_framework_jparse.h: requests in JSON, read into the messages of the framework.
-- This file has what every parser is built of; the parsers are in the modules below it.
pub mod Messages
pub mod Actions
pub mod Items
pub mod Requests
pub mod Missing
pub mod Arrays
pub mod Keeping
pub mod ItemParts
pub mod Sizes
pub mod Words
use Prim.Native.String.{String}
use content_based.Base.{Option, none, some, ℕ, zero, suc, ℤ, pos}
use content_based.Storage.{Bytes}

-- The library cJSON, which is not in the repository. `F` is the type of a `float` field.
pub record Json (F : Type 0) : Type 1 where
  pub Node : Type 0
  -- `cJSON_Parse`, `cJSON_GetObjectItem`, `cJSON_GetArraySize` and `cJSON_GetArrayItem`; `none`
  -- is NULL.
  pub parse : Bytes → Option Node
  pub get_object_item : Node → String → Option Node
  pub get_array_size : Node → ℕ
  pub get_array_item : Node → ℕ → Option Node
  -- The members `valueint`, `valuedouble` (as a `float` field holds it) and `valuestring` of a
  -- node; the last is NULL where the value is not a string.
  pub valueint : Node → ℤ
  pub valuedouble : Node → F
  pub valuestring : Node → Option Bytes
  -- `cp_strtoval_u64`, and its result as the field `tag_id` of a message holds it.
  pub strtoval_u64 : Bytes → ℕ
  pub narrow_tag_id : ℕ → ℤ
  -- 0 in a `float` field.
  pub zero_float : F

-- A parser goes on with the message it has filled so far, returns a code with it, or reads
-- through a null pointer.
pub data Parsed {ℓ} (M : Type ℓ) : Type ℓ where
  next : M → Parsed M
  stop : ℤ → M → Parsed M
  reads_null : Parsed M

abbrev pub bind {ℓ} : {M : Type ℓ} → Parsed M → (M → Parsed M) → Parsed M
bind (next m) k = k m
bind (stop code m) k = stop code m
bind reads_null k = reads_null

-- One part of a parser, and then the other.
infixr 5 ◌>>>◌
abbrev pub ◌>>>◌ {ℓ} : {M : Type ℓ} → (M → Parsed M) → (M → Parsed M) → M → Parsed M
◌>>>◌ f g m = bind (f m) g

-- At the end a parser returns 0.
abbrev pub finish {ℓ} : {M : Type ℓ} → Parsed M → Option (ℤ × M)
finish (next m) = some (pos 0, m)
finish (stop code m) = some (code, m)
finish reads_null = none

-- `if(node == NULL) ... else ...`.
abbrev pub on_node {ℓ} : {N M : Type ℓ} → Option N → Parsed M → (N → Parsed M) → Parsed M
on_node none absent found = absent
on_node (some n) absent found = found n

-- `assign` keeps what the local variable `node` points to, where that is read again.
module _ {F : Type 0} (js : Json F) {M : Type 0} (assign : Option js.Node → M → M) where
  open js use {
    Node, get_object_item, get_array_size, get_array_item, valueint, valuedouble, valuestring,
    strtoval_u64,
  }

  -- The member of a node that is given to the setter of a field.
  unfoldable pub take_int : (ℤ → M → M) → Node → M → Parsed M
  take_int set n m = next (set (valueint n) m)

  unfoldable pub take_double : (F → M → M) → Node → M → Parsed M
  take_double set n m = next (set (valuedouble n) m)

  unfoldable pub take_string : (Bytes → M → M) → Node → M → Parsed M
  take_string set n m = on_node (valuestring n) reads_null λ b. next (set b m)

  unfoldable pub take_u64 : (ℕ → M → M) → Node → M → Parsed M
  unfolding take_string
  take_u64 set = take_string λ b. set (strtoval_u64 b)

  -- A field that must be there, and one that has a value where it is not.
  unfoldable pub required : Node → String → ℤ → (Node → M → Parsed M) → M → Parsed M
  required json key code found m =
      let node = get_object_item json key in
      let m' = assign node m in on_node node (stop code m') λ n. found n m'

  unfoldable pub optional : Node → String → (M → M) → (Node → M → Parsed M) → M → Parsed M
  optional json key set found m =
      let node = get_object_item json key in
      let m' = assign node m in on_node node (next (set m')) λ n. found n m'

  -- The loop over the items of an array, from an index on.
  unfoldable pub each : Node → ℤ → (ℕ → Node → M → Parsed M) → ℕ → ℕ → M → Parsed M
  each array code put i zero m = next m
  each array code put i (suc n) m =
      let node = get_array_item array i in
      let m' = assign node m in
      on_node node (stop code m') λ v. bind (put i v m') (each array code put (suc i) n)

  -- `if(array)`, and the loop; `check` is what is asked of the size before it.
  unfoldable pub array_of :
      Node → String → (ℕ → M → Parsed M) → ℤ → (ℕ → Node → M → Parsed M) → M → Parsed M
  array_of json key check code put m =
      on_node (get_object_item json key) (next m) λ array.
        bind (check (get_array_size array) m) (each array code put 0 (get_array_size array))

-- Nothing is asked of the size.
abbrev pub any_size {ℓ} : {M : Type ℓ} → ℕ → M → Parsed M
any_size n m = next m

-- Where the variable `node` is not read again.
abbrev pub forget {ℓ} : {N M : Type ℓ} → N → M → M
forget n m = m
