-- ===== src/FrameworkModule/Network.antt =====
-- src/framework/CF_framework_module.h: `thread_network`, which answers the requests of clients.
use content_based.Base.{
  Bool, Option, none, some, [], if◌then◌else◌, ℕ, ◌+◌, ℤ, pos, negsuc, ltb, ltb_ℤ, ◌==ℤ◌,
}
use content_based.Storage.{Bytes}
use content_based.JsonParse.Messages.{an_action}
use content_based.FrameworkModule.{
  Interface, Wire, Content, packed, a_user_status, an_algorithm_category, a_candidate_set,
  an_algorithm_power, unpack_action, unpack_item, unpack_subscribe, unpack_recommend,
  unpack_feedback, unpack_user, unpack_category, unpack_candidate_set_base,
}

pub record Request (F : Type 0) (w : Wire) : Type 0 where
  pub main_protocol : ℤ
  pub sub_protocol : ℤ
  pub protocol : Option (Content F w)

pub record Respond (F : Type 0) (w : Wire) : Type 0 where
  pub respond_code : ℤ
  pub protocol : Option (Content F w)

-- What the thread starts an answer with.
abbrev pub empty_respond : {F : Type 0} {w : Wire} → Respond F w
empty_respond = record { respond_code = pos 0; protocol = none }

-- The sockets, and the serialisation of messages; their code is not in the repository. `K` is the
-- state of the network, `none` a call that fails; a reply is the 4 bytes that give a size, and what
-- follows them.
pub record Network (F : Type 0) (w : Wire) (K : Type 0) : Type 0 where
  pub accept : K → Bool × K
  -- `cp_recvbuf` of the 4 bytes of a length, and of that many bytes.
  pub recv_length : K → Option ℤ × K
  pub recv_bytes : ℤ → K → Option Bytes × K
  pub send : ℤ → Bytes → K → K
  pub close : K → K
  pub parse_request : Bytes → Option (Request F w)
  -- `ByteSize`, and `SerializeToArray` into room for a number of bytes.
  pub byte_size : Respond F w → ℕ
  pub serialize : Respond F w → ℕ → Option Bytes

module _ {F S : Type 0} {w : Wire} (model : Interface F w S) where
  -- The answer to a query: the code of an unpacking that fails, that of a query that fails, or the
  -- message that the query has filled.
  unfoldable pub answer_query {ℓ κ} :
      {A : Type ℓ} {R : Type κ}
      → Option A
      → (A → S → ℤ × (R × S))
      → (R → Content F w)
      → Respond F w
      → S
      → Respond F w × S
  answer_query none query wrap t s = (record t { respond_code = negsuc 999 }, s)
  answer_query (some a) query wrap t s =
      let (code, (r, s')) = query a s in
      if code ==ℤ pos 0
      then (record t { protocol = some (wrap r) }, s')
      else (record t { respond_code = code }, s')

  -- The same of an update, which gives nothing back.
  unfoldable pub answer_update {ℓ} :
      {A : Type ℓ} → Option A → (A → S → ℤ × S) → Respond F w → S → Respond F w × S
  answer_update none update t s = (record t { respond_code = negsuc 999 }, s)
  answer_update (some a) update t s =
      let (code, s') = update a s in
      if code ==ℤ pos 0 then (t, s') else (record t { respond_code = code }, s')

  -- The caller does not look at what `query_interface` returns.
  unfoldable pub query_interface : Request F w → Respond F w → S → Respond F w × S
  query_interface request t s =
      if request.sub_protocol ==ℤ pos 1
      then answer_query (unpack_recommend request.protocol) model.query_candidate_set
          a_candidate_set t s
      else if request.sub_protocol ==ℤ pos 2
      then answer_query (unpack_user request.protocol) model.query_user_status a_user_status t s
      else if request.sub_protocol ==ℤ pos 3
      then answer_query (unpack_candidate_set_base request.protocol) model.query_algorithm
          an_algorithm_power t s
      else if request.sub_protocol ==ℤ pos 4
      then answer_query (unpack_category request.protocol) model.query_user_category
          an_algorithm_category t s
      else (record t { respond_code = negsuc 8999 }, s)

  -- The switch of `thread_network`. A click is sent back as the model has left it.
  unfoldable pub serve : Request F w → S → Respond F w × S
  serve request s =
      let t = empty_respond in
      if request.main_protocol ==ℤ pos 1
      then answer_query (unpack_action request.protocol) model.update_action
          (λ a. packed (an_action a)) t s
      else if request.main_protocol ==ℤ pos 2
      then answer_update (unpack_item request.protocol) model.update_item t s
      else if request.main_protocol ==ℤ pos 3
      then answer_update (unpack_subscribe request.protocol) model.update_subscribe t s
      else if request.main_protocol ==ℤ pos 4
      then query_interface request t s
      else if request.main_protocol ==ℤ pos 6
      then answer_update (unpack_feedback request.protocol) model.update_feedback t s
      else (record t { respond_code = negsuc 8999 }, s)

module _ {F S K : Type 0} {w : Wire} (net : Network F w K) (model : Interface F w S)
    (message_size : ℕ) where
  -- The frame of an answer: the size, and that many bytes, or -1 alone where they do not fit.
  unfoldable pub frame : Respond F w → ℤ × Bytes
  frame t =
      if ltb message_size (4 + net.byte_size t)
      then (negsuc 0, [])
      else elim (net.serialize t message_size) [
        | none ↦ (negsuc 0, [])
        | some b ↦ (pos (net.byte_size t), b)
      ]

  -- `recv_request`: the bytes of a request, or nothing and the client closed. A length that is
  -- negative is not refused here.
  abbrev pub close_without : Option Bytes × K → Option Bytes × K
  close_without (none, k) = (none, net.close k)
  close_without (some b, k) = (some b, k)

  abbrev pub recv_sized : Option ℤ × K → Option Bytes × K
  recv_sized (none, k) = (none, net.close k)
  recv_sized (some len, k) =
      if ltb_ℤ (pos message_size) len
      then (none, net.close k)
      else close_without (net.recv_bytes len k)

  unfoldable pub recv_request : K → Option Bytes × K
  recv_request k =
      let (accepted, k') = net.accept k in
      if accepted then recv_sized (net.recv_length k') else (none, k')

  -- What is done with the bytes of a request. A client whose request is not one is left open.
  abbrev pub reply_to : Option (Request F w) → K × S → K × S
  reply_to none (k, s) = (k, s)
  reply_to (some request) (k, s) =
      let (t, s') = serve model request s in
      let (size, body) = frame t in (net.close (net.send size body k), s')

  abbrev pub network_received : Option Bytes × K → S → K × S
  network_received (none, k) s = (k, s)
  network_received (some b, k) s = reply_to (net.parse_request b) (k, s)

  -- One turn of the loop of `thread_network`.
  unfoldable pub network_turn : K × S → K × S
  network_turn (k, s) = network_received (recv_request k) s
