-- ===== src/JsonParse/Requests.antt =====
-- src/framework/CF_framework_jparse.h: the parsers of the other requests, and `parse_json`, which
-- picks a parser.
use content_based.Base.{Option, none, some, [], ◌∷◌, ◌++◌, ℤ, pos, negsuc, ◌==ℤ◌, if◌then◌else◌}
use content_based.Storage.{Bytes}
use content_based.JsonParse.{
  Json, Parsed, ◌>>>◌, finish, take_int, take_string, take_u64, required, optional, array_of,
  any_size, forget,
}
use content_based.JsonParse.Messages.{
  Subscribe, Recommend, HeartBeat, Feedback, Packed, TransferRequest, empty_action, empty_item,
  empty_recommend, an_action, an_item, a_subscribe, a_recommend, a_heartbeat, a_feedback,
}
use content_based.JsonParse.Actions.{parse_action}
use content_based.JsonParse.Items.{parse_item}

module _ {F : Type 0} (js : Json F) where
  open js use {Node, get_object_item}

  unfoldable pub subscribe_fields : Node → Subscribe → Parsed Subscribe
  subscribe_fields json =
      required js forget json "userid" (negsuc 299)
        (take_u64 js forget λ v s. record s { user_id = v })
      >>> array_of js forget json "srp" any_size (negsuc 300)
          (λ i. take_string js forget λ v s. record s { srp_id = s.srp_id ++ v ∷ [] })
      >>> array_of js forget json "circle" any_size (negsuc 301)
          (λ i. take_string js forget λ v s. record s { circle_id = s.circle_id ++ v ∷ [] })

  unfoldable pub parse_subscribe : Node → Subscribe → Option (ℤ × Subscribe)
  parse_subscribe json s = finish (subscribe_fields json s)

  unfoldable pub recommend_fields : Node → Recommend → Parsed Recommend
  recommend_fields json =
      optional js forget json "log" (λ r. record r { log = pos 0 })
        (take_int js forget λ v r. record r { log = v })
      >>> required js forget json "userid" (negsuc 399)
          (take_u64 js forget λ v r. record r { user_id = v })
      >>> optional js forget json "requestnum" (λ r. record r { request_num = pos 10 })
          (take_int js forget λ v r. record r { request_num = v })
      >>> optional js forget json "requesttype" (λ r. record r { recommend_type = pos 0 })
          (take_int js forget λ v r. record r { recommend_type = v })
      >>> optional js forget json "begtime" (λ r. record r { beg_time = pos 0 })
          (take_int js forget λ v r. record r { beg_time = v })
      >>> optional js forget json "endtime" (λ r. record r { end_time = pos 0 })
          (take_int js forget λ v r. record r { end_time = v })
      >>> optional js forget json "zone" (λ r. record r { zone = [] })
          (take_string js forget λ v r. record r { zone = v })
      >>> optional js forget json "network" (λ r. record r { network = pos 0 })
          (take_int js forget λ v r. record r { network = v })

  unfoldable pub parse_recommend : Node → Recommend → Option (ℤ × Recommend)
  parse_recommend json r = finish (recommend_fields json r)

  unfoldable pub heartbeat_fields : Node → HeartBeat → Parsed HeartBeat
  heartbeat_fields json =
      required js forget json "heartbeat" (negsuc 499)
        (take_string js forget λ v h. record h { heartbeat = v })

  unfoldable pub parse_heartbeat : Node → HeartBeat → Option (ℤ × HeartBeat)
  parse_heartbeat json h = finish (heartbeat_fields json h)

  unfoldable pub feedback_fields : Node → Feedback → Parsed Feedback
  feedback_fields json =
      required js forget json "userid" (negsuc 599)
        (take_u64 js forget λ v f. record f { user_id = v })
      >>> array_of js forget json "returnlist" any_size (negsuc 600)
          (λ i. take_u64 js forget λ v f. record f { item_id = f.item_id ++ v ∷ [] })

  unfoldable pub parse_feedback : Node → Feedback → Option (ℤ × Feedback)
  parse_feedback json f = finish (feedback_fields json f)

  -- `PackFrom`: the message is packed whatever the parser's code is.
  abbrev pub pack {ℓ} :
      {M : Type ℓ} → (M → Packed F) → Option (ℤ × M) → Option (ℤ × Option (Packed F))
  pack wrap none = none
  pack wrap (some (code, m)) = some (code, some (wrap m))

  -- The switch on the protocol type.
  unfoldable pub parse_message : ℤ → Node → ℤ → Option (ℤ × Option (Packed F))
  parse_message type json now =
      if type ==ℤ pos 1
      then pack an_action (parse_action js json empty_action)
      else if type ==ℤ pos 2
      then pack an_item (parse_item js json now (empty_item js.zero_float))
      else if type ==ℤ pos 3
      then pack a_subscribe
          (parse_subscribe json (record { user_id = 0; srp_id = []; circle_id = [] }))
      else if type ==ℤ pos 4
      then pack a_recommend (parse_recommend json empty_recommend)
      else if type ==ℤ pos 5
      then pack a_heartbeat (parse_heartbeat json (record { heartbeat = [] }))
      else if type ==ℤ pos 6
      then pack a_feedback (parse_feedback json (record { user_id = 0; item_id = [] }))
      else some (negsuc 887, none)

  abbrev pub request_of :
      ℤ → TransferRequest F → Option (ℤ × Option (Packed F)) → Option (ℤ × TransferRequest F)
  request_of type t none = none
  request_of type t (some (code, none)) = some (code, record t { main_protocol = type })
  request_of type t (some (code, some p)) =
      some (code, record { main_protocol = type; protocol = some p })

  abbrev pub parse_typed :
      Node → ℤ → TransferRequest F → Option Node → Option (ℤ × TransferRequest F)
  parse_typed json now t none = some (negsuc 0, t)
  parse_typed json now t (some node) =
      request_of (js.valueint node) t (parse_message (js.valueint node) json now)

  unfoldable pub parse_json : Bytes → ℤ → TransferRequest F → Option (ℤ × TransferRequest F)
  parse_json json_buffer now t_request = elim (js.parse json_buffer) [
    | none ↦ some (negsuc 0, t_request)
    | some json ↦ parse_typed json now t_request (get_object_item json "type")
  ]
