-- ===== src/FrameworkModule/Delivery.antt =====
-- What the queue's messages do to the model.
use content_based.Base.{
  ◌≡◌, refl, false, Option, none, some, [], ◌∷◌, ◌++◌, if◌then◌else◌, ℕ, suc, ℤ, pos, ltb, ◌==◌,
  ◌==ℤ◌, length, All,
}
use content_based.Storage.{Bytes}
use content_based.JsonParse.{Json}
use content_based.JsonParse.Messages.{
  Packed, Action, Item, Subscribe, empty_action, empty_item, an_action, an_item, a_subscribe,
}
use content_based.JsonParse.Actions.{parse_action}
use content_based.JsonParse.Items.{parse_item}
use content_based.JsonParse.Requests.{parse_json, parse_message, parse_subscribe, request_of, pack}
use content_based.FrameworkModule.{Interface, Wire}
use content_based.FrameworkModule.Kafka.{
  Consumed, message, text_in, kafka_turn, deliver, deliver_parsed, turned,
}

-- A payload without a 0 is read back from the buffer.
text_in-terminated : (p : Bytes) → All (λ b. (b == 0) ≡ false) p → text_in (p ++ 0 ∷ []) ≡ p
unfolding text_in
text_in-terminated [] h = refl
text_in-terminated (b ∷ p) h = rw (h.0, text_in-terminated p h.1) refl

module _ {F S : Type 0} {w : Wire} (js : Json F) (model : Interface F w S) where
  -- The state of the model after a message that was parsed with a code.
  abbrev pub after_code : ℤ → S → S → S
  after_code code updated s = if code ==ℤ pos 0 then updated else s

  module _ (p : Bytes) (get_max : ℕ) (now : ℤ) (get_buf : Bytes) (s : S) (json node : js.Node)
      (fits : ltb get_max (suc (length p)) ≡ false) (is_text : All (λ b. (b == 0) ≡ false) p)
      (parsed : js.parse p ≡ some json) (typed : js.get_object_item json "type" ≡ some node) where
    -- The turn, in terms of what the parser of the message returns.
    abbrev of_message : Option (ℤ × Option (Packed F)) → Option (Bytes × S)
    of_message r = turned js model (p ++ 0 ∷ []) (
        deliver_parsed js model
          (request_of js (js.valueint node) (record { main_protocol = pos 0; protocol = none }) r)
          s)

    message-fits : message (some (Consumed.payload p)) get_buf get_max ≡ (pos 0, p ++ 0 ∷ [])
    unfolding message
    message-fits = rw fits refl

    kafka_turn-of_message :
        kafka_turn js model (some (Consumed.payload p)) get_max now (get_buf, s)
        ≡ of_message (parse_message js (js.valueint node) json now)
    unfolding kafka_turn parse_json
    kafka_turn-of_message =
        rw (message-fits, text_in-terminated p is_text, parse_json, parsed, typed) refl

    -- What the model is after a click, a document and a subscription, of a code and a message.
    abbrev pub clicked : Option (ℤ × Action) → Option (Bytes × S)
    clicked none = none
    clicked (some (code, a)) = some (p ++ 0 ∷ [], after_code code (model.update_action a s).1.1 s)

    abbrev pub added : Option (ℤ × Item F) → Option (Bytes × S)
    added none = none
    added (some (code, i)) = some (p ++ 0 ∷ [], after_code code (model.update_item i s).1 s)

    abbrev pub subscribed : Option (ℤ × Subscribe) → Option (Bytes × S)
    subscribed none = none
    subscribed (some (code, b)) =
        some (p ++ 0 ∷ [], after_code code (model.update_subscribe b s).1 s)

    as_click :
        (r : Option (ℤ × Action))
        → turned js model (p ++ 0 ∷ []) (
            deliver_parsed js model
              (request_of js
                (pos 1)
                (record { main_protocol = pos 0; protocol = none })
                (pack js an_action r))
              s)
          ≡ clicked r
    unfolding deliver
    as_click none = refl
    as_click (some (code, a)) = refl

    as_document :
        (r : Option (ℤ × Item F))
        → turned js model (p ++ 0 ∷ []) (
            deliver_parsed js model
              (request_of js
                (pos 2)
                (record { main_protocol = pos 0; protocol = none })
                (pack js an_item r))
              s)
          ≡ added r
    unfolding deliver
    as_document none = refl
    as_document (some (code, a)) = refl

    as_subscription :
        (r : Option (ℤ × Subscribe))
        → turned js model (p ++ 0 ∷ []) (
            deliver_parsed js model
              (request_of js
                (pos 3)
                (record { main_protocol = pos 0; protocol = none })
                (pack js a_subscribe r))
              s)
          ≡ subscribed r
    unfolding deliver
    as_subscription none = refl
    as_subscription (some (code, a)) = refl

    -- A message from the queue that fits the buffer, holds no 0 byte and is parsed, reaches the
    -- model: one of type 1, 2 or 3 changes the state of the model as its update of the click, the
    -- document or the subscription that the parser of that type makes of it does, if the code of
    -- the parser is 0, and not at all for another code; if the parser reads through a null
    -- pointer, so does the turn.
    pub kafka_turn-delivers :
        ((js.valueint node ≡ pos 1)
          → kafka_turn js model (some (Consumed.payload p)) get_max now (get_buf, s)
            ≡ clicked (parse_action js json empty_action))
        × (((js.valueint node ≡ pos 2)
              → kafka_turn js model (some (Consumed.payload p)) get_max now (get_buf, s)
                ≡ added (parse_item js json now (empty_item js.zero_float)))
            × ((js.valueint node ≡ pos 3)
                → kafka_turn js model (some (Consumed.payload p)) get_max now (get_buf, s)
                  ≡ subscribed (
                      parse_subscribe js json
                        (record { user_id = 0; srp_id = []; circle_id = [] }))))
    unfolding parse_message
    kafka_turn-delivers = (
      (λ e. rw (kafka_turn-of_message, e) (as_click _)),
      (
        (λ e. rw (kafka_turn-of_message, e) (as_document _)),
        (λ e. rw (kafka_turn-of_message, e) (as_subscription _)),
      ),
    )
