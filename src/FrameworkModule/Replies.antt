-- ===== src/FrameworkModule/Replies.antt =====
-- What clients are answered, and which of their connections are closed.
use content_based.Base.{
  ◌≡◌, refl, sym, ap, ◌∙◌, inl, inr, ◌⊎◌, true, false, Option, none, some, [], if◌then◌else◌, ℕ,
  suc, ◌+◌, ◌-◌, ◌≤◌, ℤ, pos, negsuc, ltb, ltb_ℤ, ltb→le, length, Bool-cases, Option-cases, arith,
}
use content_based.Storage.{Bytes}
use content_based.FrameworkModule.{Interface, Wire}
use content_based.FrameworkModule.Network.{
  Request, Respond, Network, frame, recv_request, recv_sized, close_without, network_turn,
  network_received,
}

-- What is relied on of the sockets: the number of connections that are open, and the serialised
-- size of an answer.
pub record IsNetwork {F K : Type 0} {w : Wire} (net : Network F w K) : Type 0 where
  pub opened : K → ℕ
  pub accept_opens :
      (k : K) → opened (net.accept k).1 ≡ (if (net.accept k).0 then suc (opened k) else opened k)
  pub recv_length_keeps : (k : K) → opened (net.recv_length k).1 ≡ opened k
  pub recv_bytes_keeps : (n : ℤ) (k : K) → opened (net.recv_bytes n k).1 ≡ opened k
  pub send_keeps : (n : ℤ) (b : Bytes) (k : K) → opened (net.send n b k) ≡ opened k
  pub close_closes : (k : K) → opened (net.close k) ≡ opened k - 1
  pub serialized :
      (t : Respond F w) (n : ℕ) (b : Bytes)
      → net.serialize t n ≡ some b
      → length b ≡ net.byte_size t

module _ {F S K : Type 0} {w : Wire} (net : Network F w K) (reliable : IsNetwork net)
    (model : Interface F w S) (message_size : ℕ) where
  -- A frame is the size of its body and the body, or -1 alone; with its 4 bytes for the size it is
  -- no longer than the buffer.
  pub record IsFrame (sent : ℤ × Bytes) : Type 0 where
    pub sized : (sent.0 ≡ pos (length sent.1)) ⊎ ((sent.0 ≡ negsuc 0) × (sent.1 ≡ []))
    pub fits : 4 + length sent.1 ≤ message_size

  -- If the buffer has room for 4 bytes, and an answer is serialised into as many bytes as its size
  -- says, then what is sent is the number of bytes that follow and these, or -1 alone, and is with
  -- the 4 bytes of the number no longer than the buffer.
  pub frame-IsFrame :
      4 ≤ message_size → (t : Respond F w) → IsFrame (frame net model message_size t)
  unfolding frame
  frame-IsFrame h t = elim (Bool-cases (ltb message_size (4 + net.byte_size t))) [
    | inl e ↦ rw (frame, e) (record { sized = inr (refl, refl); fits = omega (arith, h) })
    | inr e ↦ elim (Option-cases (net.serialize t message_size)) [
      | inl n ↦ rw (frame, e, n) (record { sized = inr (refl, refl); fits = omega (arith, h) })
      | inr s ↦
          rw (frame, e, s.1)
            (record {
              sized = inl (ap pos (sym (reliable.serialized t message_size s.0 s.1)));
              fits = omega (arith, ltb→le _ _ e, reliable.serialized t message_size s.0 s.1);
            })
    ]
  ]

  -- While a request is served one connection more is open.
  abbrev received_opened : Option Bytes × K → ℕ → ℕ
  received_opened (none, k) n = n
  received_opened (some b, k) n = suc n

  -- A request that is none is not answered, and its client is not closed.
  abbrev pub unanswered : Option (Request F w) → ℕ
  unanswered none = 1
  unanswered (some request) = 0

  -- How many connections a turn leaves open.
  abbrev pub left_open : Option Bytes × K → ℕ
  left_open (none, k) = 0
  left_open (some b, k) = unanswered (net.parse_request b)

  closed : (k : K) (n : ℕ) → reliable.opened k ≡ suc n → reliable.opened (net.close k) ≡ n
  closed k n h = omega (arith, h, reliable.close_closes k)

  close_without-opened :
      (r : Option Bytes × K) (n : ℕ)
      → reliable.opened r.1 ≡ suc n
      → reliable.opened (close_without net model message_size r).1
        ≡ received_opened (close_without net model message_size r) n
  close_without-opened (none, k) n h = closed k n h
  close_without-opened (some b, k) n h = h

  recv_sized-opened :
      (r : Option ℤ × K) (n : ℕ)
      → reliable.opened r.1 ≡ suc n
      → reliable.opened (recv_sized net model message_size r).1
        ≡ received_opened (recv_sized net model message_size r) n
  recv_sized-opened (none, k) n h = closed k n h
  recv_sized-opened (some len, k) n h = elim (Bool-cases (ltb_ℤ (pos message_size) len)) [
    | inl e ↦ rw e (closed k n h)
    | inr e ↦
        rw e (close_without-opened (net.recv_bytes len k) n (reliable.recv_bytes_keeps len k ∙ h))
  ]

  recv_request-opened :
      (k : K)
      → reliable.opened (recv_request net model message_size k).1
        ≡ received_opened (recv_request net model message_size k) (reliable.opened k)
  unfolding recv_request
  recv_request-opened k = elim (Bool-cases (net.accept k).0) [
    | inl e ↦
        rw (recv_request, e)
          (recv_sized-opened (net.recv_length (net.accept k).1) (reliable.opened k)
            (reliable.recv_length_keeps (net.accept k).1 ∙ opens k e))
    | inr e ↦ rw (recv_request, e) (fails k e)
  ]
    where
      opens :
          (k : K)
          → (net.accept k).0 ≡ true
          → reliable.opened (net.accept k).1 ≡ suc (reliable.opened k)
      opens k e =
          reliable.accept_opens k
          ∙ ap (λ b. if b then suc (reliable.opened k) else reliable.opened k) e

      fails :
          (k : K) → (net.accept k).0 ≡ false → reliable.opened (net.accept k).1 ≡ reliable.opened k
      fails k e =
          reliable.accept_opens k
          ∙ ap (λ b. if b then suc (reliable.opened k) else reliable.opened k) e

  received-opened :
      (r : Option Bytes × K) (s : S) (n : ℕ)
      → reliable.opened r.1 ≡ received_opened r n
      → reliable.opened (network_received net model message_size r s).0 ≡ left_open r + n
  received-opened (none, k) s n h = omega (arith, h)
  received-opened (some b, k) s n h = elim (Option-cases (net.parse_request b)) [
    | inl e ↦ rw e (h ∙ omega arith)
    | inr q ↦ rw q.1 (closed _ n (reliable.send_keeps _ _ k ∙ h) ∙ omega arith)
  ]

  -- If accepting opens a connection, closing closes one, and receiving and sending leave their
  -- number alone, a turn of the network thread leaves as many connections open as there were, and
  -- one more exactly if it received bytes that are no request.
  pub network_turn-opened :
      (k : K) (s : S)
      → reliable.opened (network_turn net model message_size (k, s)).0
        ≡ left_open (recv_request net model message_size k) + reliable.opened k
  unfolding network_turn
  network_turn-opened k s =
      received-opened (recv_request net model message_size k) s (reliable.opened k)
        (recv_request-opened k)
