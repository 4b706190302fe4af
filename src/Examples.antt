-- ===== src/Examples.antt =====
-- Small inputs on which the theorems are applied: arithmetic on integers in place of `double` and
-- `float`, a serialisation that writes the numbers of a message one after the other, and a disk in
-- memory.
mod Logs
mod Sorting
mod Tables
mod Models
mod Services
mod Requests
mod Framework
use content_based.Base.{
  ◌≡◌, refl, sym, ap, ◌∙◌, Bool, true, false, Option, none, some, List, [], ◌∷◌, map, ℕ, ◌/◌, ◌^◌,
  ℤ, pos, negsuc, pos_part, neg_part, sub_ℕ, ◌+ℤ◌, ◌-ℤ◌, ◌*ℤ◌, ltb_ℤ, leb_ℤ, arith,
}
use content_based.Storage.{Bytes}
use content_based.Storage.Memory.{Disk}
use content_based.Floats.{Floats, IsExact}
use content_based.Protocol.{
  CategoryClick, CategoryItem, CategoryDistribution, Protocol, IsRoundTrip,
}

abbrev quotient : ℤ → ℤ → ℤ
quotient a b = pos (pos_part a / pos_part b)

abbrev pub int_floats : Floats
int_floats = record {
  Double = ℤ;
  Float = ℤ;
  of_int = λ a. a;
  to_int = λ a. a;
  float_of_int = λ a. a;
  of_float = λ a. a;
  to_float = λ a. a;
  decimal = λ m k. pos (pos_part m / 10 ^ k);
  max_float = pos 1000;
  add = ◌+ℤ◌;
  sub = ◌-ℤ◌;
  mul = ◌*ℤ◌;
  div = quotient;
  lt = ltb_ℤ;
  le = leb_ℤ;
  add_float = ◌+ℤ◌;
  sub_float = ◌-ℤ◌;
  mul_float = ◌*ℤ◌;
  div_float = quotient;
  lt_float = ltb_ℤ;
}

pub int_floats-IsExact : IsExact int_floats
int_floats-IsExact = record {
  add_exact = λ a b p q r. refl;
  lt_exact = λ a b p q. refl;
  le_exact = λ a b p q. refl;
  to_int_exact = λ a p. refl;
}

abbrev parse_click : Bytes → Option CategoryClick
parse_click (u ∷ a ∷ b ∷ c ∷ d ∷ []) =
    some (record { user_id = u; category_id = sub_ℕ a b; publish_time = sub_ℕ c d })
parse_click _ = none

abbrev parse_item : Bytes → Option CategoryItem
parse_item (u ∷ a ∷ b ∷ c ∷ d ∷ []) =
    some (record { item_id = u; category_id = sub_ℕ a b; publish_time = sub_ℕ c d })
parse_item _ = none

abbrev numbers : ℕ → ℤ → ℤ → Bytes
numbers u c t = u ∷ pos_part c ∷ neg_part c ∷ pos_part t ∷ neg_part t ∷ []

abbrev pub listing : Protocol ℤ
listing = record {
  encode_click = λ c. some (numbers c.user_id c.category_id c.publish_time);
  parse_click = parse_click;
  encode_item = λ i. some (numbers i.item_id i.category_id i.publish_time);
  parse_item = parse_item;
  encode_distribution = λ d. d.user_id ∷ map (λ t. pos_part t.tag_power) d.distribution;
  parse_distribution = λ b. none;
}

sub_ℕ_parts : (z : ℤ) → sub_ℕ (pos_part z) (neg_part z) ≡ z
sub_ℕ_parts z = ground arith

abbrev on_some {ℓ} : {A : Type ℓ} → (Bytes → Option A) → Option Bytes → Option A
on_some f none = none
on_some f (some b) = f b

pub listing-IsRoundTrip : IsRoundTrip listing
listing-IsRoundTrip = record {
  click_back = λ c b e.
      sym (ap (on_some parse_click) e)
      ∙ ap some (rw (sub_ℕ_parts c.category_id, sub_ℕ_parts c.publish_time) refl);
  item_back = λ i b e.
      sym (ap (on_some parse_item) e)
      ∙ ap some (rw (sub_ℕ_parts i.category_id, sub_ℕ_parts i.publish_time) refl);
}

abbrev pub empty_disk : Disk
empty_disk = record { full = false; logs = λ f. none; table = []; temporary = [] }

-- A click of user 7.
abbrev pub click : ℤ → ℤ → CategoryClick
click c t = record { user_id = 7; category_id = c; publish_time = t }
