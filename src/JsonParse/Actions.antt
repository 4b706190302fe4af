-- ===== src/JsonParse/Actions.antt =====
-- src/framework/CF_framework_jparse.h: the parser of a click, `parse_action`.
use content_based.Base.{Option, [], ℤ, pos, negsuc}
use content_based.JsonParse.{
  Json, Parsed, ◌>>>◌, finish, take_int, take_string, take_u64, required, optional, forget,
}
use content_based.JsonParse.Messages.{Action}

module _ {F : Type 0} (js : Json F) where
  unfoldable pub action_fields : js.Node → Action → Parsed Action
  action_fields json =
      required js forget json "clicktime" (negsuc 100)
        (take_int js forget λ v a. record a { click_time = v })
      >>> required js forget json "userid" (negsuc 101)
          (take_u64 js forget λ v a. record a { user_id = v })
      >>> required js forget json "docid" (negsuc 102)
          (take_u64 js forget λ v a. record a { item_id = v })
      >>> optional js forget json "staytime" (λ a. record a { stay_time = pos 0 })
          (take_int js forget λ v a. record a { stay_time = v })
      >>> required js forget json "action" (negsuc 103)
          (take_int js forget λ v a. record a { action = v })
      >>> optional js forget json "location" (λ a. record a { location = [] })
          (take_string js forget λ v a. record a { location = v })
      >>> optional js forget json "srpid" (λ a. record a { srp_id = [] })
          (take_string js forget λ v a. record a { srp_id = v })
      >>> optional js forget json "source" (λ a. record a { click_source = pos 0 })
          (take_int js forget λ v a. record a { click_source = v })
      >>> optional js forget json "dislike" (λ a. record a { dislike = [] })
          (take_string js forget λ v a. record a { dislike = v })
      >>> optional js forget json "zone" (λ a. record a { zone = [] })
          (take_string js forget λ v a. record a { zone = v })

  unfoldable pub parse_action : js.Node → Action → Option (ℤ × Action)
  parse_action json a = finish (action_fields json a)
