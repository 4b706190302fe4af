-- ===== src/JsonParse/Missing.antt =====
-- Which code a parser returns: that of the first field that must be there and is not.
use Prim.Native.String.{String}
use content_based.Base.{
  ◌≡◌, refl, subst, inl, inr, Option, none, some, List, [], ◌∷◌, ℕ, ℤ, pos, negsuc, All,
  Option-cases,
}
use content_based.Storage.{Bytes}
use content_based.JsonParse.{
  Json, Parsed, next, stop, reads_null, bind, ◌>>>◌, finish, take_int, take_string, take_u64,
  required, optional, forget,
}
use content_based.JsonParse.Actions.{action_fields}
use content_based.JsonParse.Requests.{recommend_fields, heartbeat_fields}

abbrev pub or_else : Option ℤ → Option ℤ → Option ℤ
or_else none b = b
or_else (some a) b = some a

-- A parser goes on where no code is expected, and stops with the code where one is.
abbrev pub Gives {ℓ} : {M : Type ℓ} → Option ℤ → Parsed M → Type 0
Gives none (next m) = Unit
Gives (some c) (stop code m) = code ≡ c
Gives _ _ = ⊥

-- The code that a parser returns at the end.
abbrev pub code_of : Option ℤ → ℤ
code_of none = pos 0
code_of (some c) = c

-- It returns, with that code.
abbrev pub Returns {ℓ} : {M : Type ℓ} → Option ℤ → Option (ℤ × M) → Type ℓ
Returns {M = M} o r = (m : M) × (r ≡ some (code_of o, m))

pub finish-Returns {ℓ} :
    {M : Type ℓ} (o : Option ℤ) (p : Parsed M) → Gives o p → Returns o (finish p)
finish-Returns none (next m) g = (m, refl)
finish-Returns (some c) (stop code m) g = (m, rw g refl)
finish-Returns none (stop code m) g = absurd g
finish-Returns none reads_null g = absurd g
finish-Returns (some c) (next m) g = absurd g
finish-Returns (some c) reads_null g = absurd g

-- What a part gives, whatever message it starts from.
pub record Part {ℓ} {M : Type ℓ} (o : Option ℤ) (f : M → Parsed M) : Type ℓ where
  pub gives : (m : M) → Gives o (f m)

pub bind-Gives {ℓ} :
    {M : Type ℓ} (a b : Option ℤ) (p : Parsed M) (g : M → Parsed M)
    → Gives a p
    → Part b g
    → Gives (or_else a b) (bind p g)
bind-Gives none b (next m) g h k = k.gives m
bind-Gives (some c) b (stop code m) g h k = h
bind-Gives none b (stop code m) g h k = absurd h
bind-Gives none b reads_null g h k = absurd h
bind-Gives (some c) b (next m) g h k = absurd h
bind-Gives (some c) b reads_null g h k = absurd h

-- One part, and then the other.
infixr 5 ◌and_then◌
pub ◌and_then◌ {ℓ} :
    {M : Type ℓ} {a b : Option ℤ} {f g : M → Parsed M}
    → Part a f
    → Part b g
    → Part (or_else a b) (f >>> g)
◌and_then◌ {a = a} {b = b} {f = f} {g = g} h k = record {
  gives = λ m. bind-Gives a b (f m) g (h.gives m) k;
}

-- What a click must have, and what of it is read as text.
abbrev pub required_of_action : List (String × ℤ)
required_of_action =
    ("clicktime", negsuc 100)
    ∷ ("userid", negsuc 101)
    ∷ ("docid", negsuc 102)
    ∷ ("action", negsuc 103)
    ∷ []

abbrev pub texts_of_action : List String
texts_of_action = "userid" ∷ "docid" ∷ "location" ∷ "srpid" ∷ "dislike" ∷ "zone" ∷ []

abbrev pub required_of_recommend : List (String × ℤ)
required_of_recommend = ("userid", negsuc 399) ∷ []

abbrev pub required_of_heartbeat : List (String × ℤ)
required_of_heartbeat = ("heartbeat", negsuc 499) ∷ []

module _ {F : Type 0} (js : Json F) (json : js.Node) where
  open js use {Node, get_object_item, valuestring}

  -- The code that is owed where a field is missing.
  abbrev missing_node : Option Node → ℤ → Option ℤ
  missing_node none code = some code
  missing_node (some n) code = none

  abbrev pub missing : String → ℤ → Option ℤ
  missing key code = missing_node (get_object_item json key) code

  unfoldable pub first_missing : List (String × ℤ) → Option ℤ
  first_missing [] = none
  first_missing ((key, code) ∷ rest) = or_else (missing key code) (first_missing rest)

  -- The value of a field, if it is there, is a string.
  abbrev pub IsText : String → Type 0
  IsText key =
      (n : Node) → get_object_item json key ≡ some n → (b : Bytes) × (valuestring n ≡ some b)

  module _ {M : Type 0} where
    -- What is done with the node of a field only sets the message.
    abbrev pub Fills : String → (Node → M → Parsed M) → Type 0
    Fills key found =
        (n : Node) → get_object_item json key ≡ some n → (m : M) → Gives none (found n m)

    pub required-Part :
        (key : String) (code : ℤ) (found : Node → M → Parsed M)
        → Fills key found
        → Part (missing key code) (required js forget json key code found)
    unfolding required
    required-Part key code found h = record {
      gives = λ m. elim (Option-cases (get_object_item json key)) [
        | inl e ↦ rw e refl
        | inr s ↦ rw s.1 (h s.0 s.1 m)
      ];
    }

    pub optional-Part :
        (key : String) (set : M → M) (found : Node → M → Parsed M)
        → Fills key found
        → Part none (optional js forget json key set found)
    unfolding optional
    optional-Part key set found h = record {
      gives = λ m. elim (Option-cases (get_object_item json key)) [
        | inl e ↦ rw e tt
        | inr s ↦ rw s.1 (h s.0 s.1 m)
      ];
    }

    pub required_int :
        (key : String) (code : ℤ) (set : ℤ → M → M)
        → Part (missing key code) (required js forget json key code (take_int js forget set))
    unfolding take_int
    required_int key code set = required-Part _ _ _ λ n e m. tt

    pub optional_int :
        (key : String) (absent : M → M) (set : ℤ → M → M)
        → Part none (optional js forget json key absent (take_int js forget set))
    unfolding take_int
    optional_int key absent set = optional-Part _ _ _ λ n e m. tt

    pub take_string-Fills :
        (key : String) (set : Bytes → M → M) → IsText key → Fills key (take_string js forget set)
    unfolding take_string
    take_string-Fills key set h n e m = rw (h n e).1 tt

    pub required_string :
        (key : String) (code : ℤ) (set : Bytes → M → M)
        → IsText key
        → Part (missing key code) (required js forget json key code (take_string js forget set))
    required_string key code set h = required-Part _ _ _ (take_string-Fills _ _ h)

    pub required_u64 :
        (key : String) (code : ℤ) (set : ℕ → M → M)
        → IsText key
        → Part (missing key code) (required js forget json key code (take_u64 js forget set))
    unfolding take_u64
    required_u64 key code set h = required-Part _ _ _ (take_string-Fills _ _ h)

    pub optional_string :
        (key : String) (absent : M → M) (set : Bytes → M → M)
        → IsText key
        → Part none (optional js forget json key absent (take_string js forget set))
    optional_string key absent set h = optional-Part _ _ _ (take_string-Fills _ _ h)

  pub action_fields-Part :
      All IsText texts_of_action → Part (first_missing required_of_action) (action_fields js json)
  unfolding action_fields first_missing
  action_fields-Part (user, (doc, (location, (srp, (dislike, zone))))) =
      required_int _ _ _
      and_then required_u64 _ _ _ user
      and_then required_u64 _ _ _ doc
      and_then optional_int _ _ _
      and_then required_int _ _ _
      and_then optional_string _ _ _ location
      and_then optional_string _ _ _ srp
      and_then optional_int _ _ _
      and_then optional_string _ _ _ dislike
      and_then optional_string _ _ _ zone.0

  pub recommend_fields-Part :
      All IsText ("userid" ∷ "zone" ∷ [])
      → Part (first_missing required_of_recommend) (recommend_fields js json)
  unfolding recommend_fields first_missing
  recommend_fields-Part (user, zone) =
      optional_int _ _ _
      and_then required_u64 _ _ _ user
      and_then optional_int _ _ _
      and_then optional_int _ _ _
      and_then optional_int _ _ _
      and_then optional_int _ _ _
      and_then optional_string _ _ _ zone.0
      and_then optional_int _ _ _

  or_else-none : (a : Option ℤ) → a ≡ or_else a none
  or_else-none none = refl
  or_else-none (some c) = refl

  pub heartbeat_fields-Part :
      IsText "heartbeat" → Part (first_missing required_of_heartbeat) (heartbeat_fields js json)
  unfolding heartbeat_fields first_missing
  heartbeat_fields-Part h =
      subst (λ o. Part o (heartbeat_fields js json)) (or_else-none _) (required_string _ _ _ h)
