-- ===== src/FrameworkModule/Released.antt =====
-- What is left of a connection to the queue when it is closed.
use content_based.Base.{
  ◌≡◌, refl, ap, ◌∙◌, Bool, true, false, Option, none, some, if◌then◌else◌, ℕ, suc, ◌-◌, ℤ, arith,
}
use content_based.Storage.{Bytes}
use content_based.FrameworkModule.Connection.{
  RdKafka, OffsetStore, Kafka, and_then, started, with_topic, with_consumer, hundred, smallest,
  set_offset, with_broker, broker_text, with_confs, connect, disconnect,
}
use Prim.Native.String.{String}

-- One more where something was created.
abbrev created : {A : Type 0} → Option A → ℕ → ℕ
created none n = n
created (some a) n = suc n

-- What is relied on of rdkafka: how many objects exist that are consumers or topics. The
-- configurations are not counted.
pub record IsRdKafka {K Conf Consumer Topic : Type 0} (lib : RdKafka K Conf Consumer Topic)
    : Type 0 where
  pub alive : K → ℕ
  pub global_conf_keeps : (k : K) → alive (lib.create_global_conf k).1 ≡ alive k
  pub topic_conf_keeps : (k : K) → alive (lib.create_topic_conf k).1 ≡ alive k
  pub set_keeps :
      (c : Conf) (name : String) (v : Bytes) (k : K) → alive (lib.set_conf c name v k).1 ≡ alive k
  pub consumer_created :
      (c : Conf) (k : K)
      → alive (lib.create_consumer c k).1 ≡ created (lib.create_consumer c k).0 (alive k)
  pub topic_created :
      (c : Consumer) (name : Bytes) (tc : Conf) (k : K)
      → alive (lib.create_topic c name tc k).1 ≡ created (lib.create_topic c name tc k).0 (alive k)
  pub start_keeps :
      (c : Consumer) (t : Topic) (p : ℤ) (k : K) → alive (lib.start c t p k).1 ≡ alive k
  pub stop_keeps : (c : Consumer) (t : Topic) (p : ℤ) (k : K) → alive (lib.stop c t p k) ≡ alive k
  pub poll_keeps : (c : Consumer) (ms : ℕ) (k : K) → alive (lib.poll c ms k) ≡ alive k
  pub topic_deleted : (t : Topic) (k : K) → alive (lib.delete_topic t k) ≡ alive k - 1
  pub consumer_deleted : (c : Consumer) (k : K) → alive (lib.delete_consumer c k) ≡ alive k - 1
  pub wait_keeps : (ms : ℕ) (k : K) → alive (lib.wait_destroyed ms k) ≡ alive k
  pub remove_keeps : (f : Bytes) (k : K) → alive (lib.remove_file f k) ≡ alive k

module _ {K Conf Consumer Topic : Type 0} (lib : RdKafka K Conf Consumer Topic)
    (reliable : IsRdKafka lib) where
  open reliable use {alive}

  -- How many objects are left when what a connection holds is given back.
  abbrev left : ℤ × Kafka lib → ℕ
  left r = alive (disconnect lib r.1).outside

  started-left :
      (c : Consumer) (t : Topic) (r : Bool × K) (q : Kafka lib) (n : ℕ)
      → alive r.1 ≡ suc (suc n)
      → left (started lib r (record q { consumer = some c; topic = some t })) ≡ n
  unfolding disconnect
  started-left c t (true, k) q n h = omega (
    arith,
    h,
    reliable.wait_keeps 5000 _,
    reliable.consumer_deleted c _,
    reliable.topic_deleted t _,
    reliable.poll_keeps c 1000 _,
    reliable.stop_keeps c t q.partition k,
  )
  started-left c t (false, k) q n h = omega (
    arith,
    h,
    reliable.wait_keeps 5000 _,
    reliable.consumer_deleted c _,
    reliable.topic_deleted t _,
    reliable.poll_keeps c 1000 _,
    reliable.stop_keeps c t q.partition k,
  )

  with_topic-left :
      (c : Consumer) (r : Option Topic × K) (q : Kafka lib) (n : ℕ)
      → alive r.1 ≡ created r.0 (suc n)
      → left (with_topic lib c r (record q { consumer = some c })) ≡ n
  unfolding disconnect
  with_topic-left c (none, k) q n h =
      omega (arith, h, reliable.wait_keeps 5000 _, reliable.consumer_deleted c k)
  with_topic-left c (some t, k) q n h =
      started-left c t (lib.start c t q.partition k) (record q { outside = k }) n
        (reliable.start_keeps c t q.partition k ∙ h)

  with_consumer-left :
      (topic : Bytes) (tc : Conf) (r : Option Consumer × K) (q : Kafka lib) (n : ℕ)
      → alive r.1 ≡ created r.0 n
      → left (with_consumer lib topic tc r q) ≡ n
  unfolding disconnect
  with_consumer-left topic tc (none, k) q n h = h
  with_consumer-left topic tc (some c, k) q n h =
      with_topic-left c (lib.create_topic c topic tc k) (record q { outside = k }) n
        (reliable.topic_created c topic tc k ∙ ap (created (lib.create_topic c topic tc k).0) h)

  -- What holds of each state in which there is no consumer yet.
  abbrev Goes : (K → ℤ × Kafka lib) → ℕ → Type 0
  Goes next n = (k : K) → alive k ≡ n → left (next k) ≡ n

  tested-left :
      (r : Bool × K) (next : K → ℤ × Kafka lib) (q : Kafka lib) (n : ℕ)
      → q.consumer ≡ none
      → Goes next n
      → alive r.1 ≡ n
      → left (and_then lib r next q) ≡ n
  unfolding disconnect
  tested-left (true, k) next q n e go h = go k h
  tested-left (false, k) next q n e go h = rw e h

  and_then-left :
      (c : Conf) (name : String) (v : Bytes) (next : K → ℤ × Kafka lib) (q : Kafka lib) (n : ℕ)
      → q.consumer ≡ none
      → Goes next n
      → Goes (λ k. and_then lib (lib.set_conf c name v k) next q) n
  and_then-left c name v next q n e go k h =
      tested-left (lib.set_conf c name v k) next q n e go (reliable.set_keeps c name v k ∙ h)

  set_offset-left :
      (tc : Conf) (o : Option OffsetStore) (next : K → ℤ × Kafka lib) (q : Kafka lib) (n : ℕ)
      → q.consumer ≡ none
      → Goes next n
      → Goes (set_offset lib tc o next q) n
  unfolding set_offset
  set_offset-left tc none next q n e go k h = go k h
  set_offset-left tc (some o) next q n e go k h =
      let reset : K → ℤ × Kafka lib =
        λ k2. and_then lib (lib.set_conf tc "auto.offset.reset" smallest k2) next q in
      let stored : K → ℤ × Kafka lib =
        λ k1. and_then lib (lib.set_conf tc "offset.store.path" o.path k1) reset q in
      and_then-left tc "auto.commit.interval.ms" hundred stored q n e
        (and_then-left tc "offset.store.path" o.path reset q n e
          (and_then-left tc "auto.offset.reset" smallest next q n e go))
        (if o.is_init then lib.remove_file o.path k else k) (removed o.is_init)
    where
      removed : (b : Bool) → alive (if b then lib.remove_file o.path k else k) ≡ n
      removed true = reliable.remove_keeps o.path k ∙ h
      removed false = h

  -- What holds of the outcome, where there is one.
  abbrev LeavesIf : Option (ℤ × Kafka lib) → ℕ → Type 0
  LeavesIf r n = (p : ℤ × Kafka lib) → r ≡ some p → left p ≡ n

  leaves-some : (p : ℤ × Kafka lib) (n : ℕ) → left p ≡ n → LeavesIf (some p) n
  leaves-some p n h p' e = cc

  leaves-none : (n : ℕ) → LeavesIf none n
  leaves-none n p e = cc

  with_broker-left :
      (b : Option Bytes) (topic : Bytes) (o : Option OffsetStore) (gc tc : Conf) (q : Kafka lib)
      → q.consumer ≡ none
      → LeavesIf (with_broker lib b topic o gc tc q) (alive q.outside)
  with_broker-left none topic o gc tc q e = leaves-none (alive q.outside)
  with_broker-left (some b) topic o gc tc q e =
      let consume : K → ℤ × Kafka lib =
        λ k. with_consumer lib topic tc (lib.create_consumer gc k) q in
      leaves-some _ _ (
        and_then-left gc "metadata.broker.list" b (set_offset lib tc o consume q) q
          (alive q.outside) e
          (set_offset-left tc o consume q (alive q.outside) e (λ k h.
            with_consumer-left topic tc (lib.create_consumer gc k) q (alive q.outside)
              (reliable.consumer_created gc k ∙ ap (created (lib.create_consumer gc k).0) h)))
          q.outside refl)

  with_confs-left :
      (host : Bytes) (port : ℕ) (topic : Bytes) (o : Option OffsetStore) (gc tc : Option Conf)
      (q : Kafka lib)
      → q.consumer ≡ none
      → LeavesIf (with_confs lib host port topic o gc tc q) (alive q.outside)
  unfolding disconnect
  with_confs-left host port topic o none tc q e = leaves-some _ _ (rw e refl)
  with_confs-left host port topic o (some gc) none q e = leaves-some _ _ (rw e refl)
  with_confs-left host port topic o (some gc) (some tc) q e =
      with_broker-left (broker_text lib host port) topic o gc tc q e

  -- If rdkafka creates and deletes as its operations say, then after a connection that has no
  -- consumer was opened, whether that succeeded or failed at any step, and closed, there are as many
  -- consumers and topics as before.
  pub disconnect-connect :
      (host : Bytes) (port : ℕ) (topic : Bytes) (partition : ℤ) (o : Option OffsetStore)
      (q : Kafka lib) (r : ℤ × Kafka lib)
      → q.consumer ≡ none
      → connect lib host port topic partition o q ≡ some r
      → alive (disconnect lib r.1).outside ≡ alive q.outside
  unfolding connect
  disconnect-connect host port topic partition o q r e h =
      with_confs-left host port topic o _ _ _ e r h
      ∙ reliable.topic_conf_keeps _
      ∙ reliable.global_conf_keeps q.outside
