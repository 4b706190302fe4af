-- ===== src/FrameworkModule/Kafka.antt =====
-- src/framework/CF_framework_module.h: what is taken from the queue, and the thread that hands it
-- to the model.
use content_based.Base.{
  Option, none, some, [], ◌∷◌, ◌++◌, if◌then◌else◌, ℕ, suc, ℤ, pos, negsuc, ltb, ◌==◌, ◌==ℤ◌,
  length,
}
use content_based.Storage.{Bytes}
use content_based.JsonParse.{Json}
use content_based.JsonParse.Messages.{TransferRequest, Packed}
use content_based.JsonParse.Requests.{parse_json}
use content_based.FrameworkModule.{
  Interface, Wire, Content, packed, unpack_action, unpack_item, unpack_subscribe,
}

-- What `consume` of the library rdkafka gives, which is not in the repository.
pub data Consumed : Type 0 where
  timed_out partition_eof other_error : Consumed
  payload : Bytes → Consumed

-- The buffer is written only with code 0: then it holds the payload, and a 0 behind it. There is no
-- consumer before `connect`.
unfoldable pub message : Option Consumed → Bytes → ℕ → ℤ × Bytes
message none result max_size = (negsuc 0, result)
message (some Consumed.timed_out) result max_size = (negsuc 99, result)
message (some Consumed.partition_eof) result max_size = (negsuc 199, result)
message (some (Consumed.payload p)) result max_size =
    if ltb max_size (suc (length p)) then (negsuc 299, result) else (pos 0, p ++ 0 ∷ [])
message (some Consumed.other_error) result max_size = (negsuc 399, result)

-- The text in a buffer, for code that is given its address only.
unfoldable pub text_in : Bytes → Bytes
text_in [] = []
text_in (b ∷ bs) = let rest = text_in bs in if b == 0 then [] else b ∷ rest

module _ {F S : Type 0} {w : Wire} (js : Json F) (model : Interface F w S) where
  -- The field `protocol` of a request.
  abbrev pub content_of : Option (Packed F) → Option (Content F w)
  content_of none = none
  content_of (some p) = some (packed p)

  -- A message that was unpacked is handed to the model. The thread goes on whatever the code is.
  abbrev pub hand_over {ℓ} : {A : Type ℓ} → Option A → (A → S → S) → S → S
  hand_over none update s = s
  hand_over (some a) update s = update a s

  -- The switch of `thread_kafka`.
  unfoldable pub deliver : TransferRequest F → S → S
  deliver request s =
      let content = content_of request.protocol in
      if request.main_protocol ==ℤ pos 1
      then hand_over (unpack_action content) (λ a s. (model.update_action a s).1.1) s
      else if request.main_protocol ==ℤ pos 2
      then hand_over (unpack_item content) (λ i s. (model.update_item i s).1) s
      else if request.main_protocol ==ℤ pos 3
      then hand_over (unpack_subscribe content) (λ b s. (model.update_subscribe b s).1) s
      else s

  -- A parser's outcome; without one it has read through a null pointer.
  abbrev pub deliver_parsed : Option (ℤ × TransferRequest F) → S → Option S
  deliver_parsed none s = none
  deliver_parsed (some (code, request)) s = some (if code ==ℤ pos 0 then deliver request s else s)

  abbrev pub turned : Bytes → Option S → Option (Bytes × S)
  turned buf none = none
  turned buf (some s) = some (buf, s)

  -- Each request that is parsed starts empty.
  abbrev pub received : ℤ → ℤ × Bytes → S → Option (Bytes × S)
  received now (code, buf) s =
      if code ==ℤ pos 0
      then turned buf (
          deliver_parsed
            (parse_json js (text_in buf) now (record { main_protocol = pos 0; protocol = none })) s)
      else some (buf, s)

  -- One turn of the loop of `thread_kafka`: the buffer and the state of the model, unless the
  -- parser reads through a null pointer. `now` is what the parser reads from the clock.
  unfoldable pub kafka_turn : Option Consumed → ℕ → ℤ → Bytes × S → Option (Bytes × S)
  kafka_turn consumed get_max now (get_buf, s) = received now (message consumed get_buf get_max) s
