-- ===== src/FrameworkModule/Connection.antt =====
-- src/framework/CF_framework_module.h: `UC_Kafka::connect` and `disconnect`.
use content_based.Base.{
  Bool, true, false, Option, none, some, [], ◌∷◌, ◌++◌, if◌then◌else◌, ℕ, ℤ, pos, negsuc, ltb,
  length,
}
use content_based.Storage.{Bytes}
use Prim.Native.String.{String}

-- The library rdkafka, whose code is not in the repository, and `cp_remove_file`, in a state `K`.
-- A test is true where the library says that it went well.
pub record RdKafka (K Conf Consumer Topic : Type 0) : Type 0 where
  pub create_global_conf : K → Option Conf × K
  pub create_topic_conf : K → Option Conf × K
  pub set_conf : Conf → String → Bytes → K → Bool × K
  pub create_consumer : Conf → K → Option Consumer × K
  pub create_topic : Consumer → Bytes → Conf → K → Option Topic × K
  pub start : Consumer → Topic → ℤ → K → Bool × K
  pub stop : Consumer → Topic → ℤ → K → K
  pub poll : Consumer → ℕ → K → K
  pub delete_topic : Topic → K → K
  pub delete_consumer : Consumer → K → K
  pub wait_destroyed : ℕ → K → K
  pub remove_file : Bytes → K → K
  pub print_port : ℕ → Bytes

pub record UcKafka (K Conf Consumer Topic : Type 0) : Type 0 where
  pub partition : ℤ
  pub cfg_kafka : Option Conf
  pub cfg_topic : Option Conf
  pub consumer : Option Consumer
  pub topic : Option Topic
  pub outside : K

-- What `offset.store.path` is given, and whether the file is removed first.
pub record OffsetStore : Type 0 where
  pub path : Bytes
  pub is_init : Bool

abbrev pub hundred : Bytes
hundred = b'1' ∷ b'0' ∷ b'0' ∷ []

abbrev pub smallest : Bytes
smallest = b's' ∷ b'm' ∷ b'a' ∷ b'l' ∷ b'l' ∷ b'e' ∷ b's' ∷ b't' ∷ []

module _ {K Conf Consumer Topic : Type 0} (lib : RdKafka K Conf Consumer Topic) where
  abbrev pub Kafka : Type 0
  Kafka = UcKafka K Conf Consumer Topic

  unfoldable pub new_kafka : K → Kafka
  new_kafka k = record {
    partition = pos 0;
    cfg_kafka = none;
    cfg_topic = none;
    consumer = none;
    topic = none;
    outside = k;
  }

  -- A setting that fails ends `connect` with -1.
  abbrev pub and_then : Bool × K → (K → ℤ × Kafka) → Kafka → ℤ × Kafka
  and_then (true, k) next q = next k
  and_then (false, k) next q = (negsuc 0, record q { outside = k })

  -- From `start` on.
  abbrev pub started : Bool × K → Kafka → ℤ × Kafka
  started (true, k) q = (pos 0, record q { outside = k })
  started (false, k) q = (negsuc 0, record q { outside = k })

  abbrev pub with_topic : Consumer → Option Topic × K → Kafka → ℤ × Kafka
  with_topic c (none, k) q = (negsuc 0, record q { topic = none; outside = k })
  with_topic c (some t, k) q =
      started (lib.start c t q.partition k) (record q { topic = some t; outside = k })

  abbrev pub with_consumer : Bytes → Conf → Option Consumer × K → Kafka → ℤ × Kafka
  with_consumer topic tc (none, k) q = (negsuc 0, record q { consumer = none; outside = k })
  with_consumer topic tc (some c, k) q =
      with_topic c (lib.create_topic c topic tc k) (record q { consumer = some c; outside = k })

  -- The settings for the file of the offset; without one there are none.
  unfoldable pub set_offset : Conf → Option OffsetStore → (K → ℤ × Kafka) → Kafka → K → ℤ × Kafka
  set_offset tc none next q k = next k
  set_offset tc (some o) next q k =
      let k0 = if o.is_init then lib.remove_file o.path k else k in
      and_then (lib.set_conf tc "auto.commit.interval.ms" hundred k0)
        (λ k1.
          and_then (lib.set_conf tc "offset.store.path" o.path k1)
            (λ k2. and_then (lib.set_conf tc "auto.offset.reset" smallest k2) next q) q)
        q

  -- `brocker` has 32 bytes, of which one is for the 0 at the end; `none` is what `sprintf` writes
  -- past it.
  abbrev pub broker_text : Bytes → ℕ → Option Bytes
  broker_text host port =
      let text = host ++ b':' ∷ lib.print_port port in
      if ltb (length text) 32 then some text else none

  abbrev pub with_broker :
      Option Bytes → Bytes → Option OffsetStore → Conf → Conf → Kafka → Option (ℤ × Kafka)
  with_broker none topic offset gc tc q = none
  with_broker (some broker) topic offset gc tc q = some (
      and_then (lib.set_conf gc "metadata.broker.list" broker q.outside)
        (set_offset tc offset (λ k. with_consumer topic tc (lib.create_consumer gc k) q) q) q)

  abbrev pub with_confs :
      Bytes
      → ℕ
      → Bytes
      → Option OffsetStore
      → Option Conf
      → Option Conf
      → Kafka
      → Option (ℤ × Kafka)
  with_confs host port topic offset none tc q = some (negsuc 0, q)
  with_confs host port topic offset (some gc) none q = some (negsuc 0, q)
  with_confs host port topic offset (some gc) (some tc) q =
      with_broker (broker_text host port) topic offset gc tc q

  unfoldable pub connect : Bytes → ℕ → Bytes → ℤ → Option OffsetStore → Kafka → Option (ℤ × Kafka)
  connect host port topic partition offset q =
      let (gc, k0) = lib.create_global_conf q.outside in
      let (tc, k1) = lib.create_topic_conf k0 in
      with_confs host port topic offset gc tc
        (record q { partition = partition; cfg_kafka = gc; cfg_topic = tc; outside = k1 })

  abbrev pub drop_topic : Consumer → Option Topic → ℤ → K → K
  drop_topic c none partition k = k
  drop_topic c (some t) partition k =
      lib.delete_topic t (lib.poll c 1000 (lib.stop c t partition k))

  abbrev pub drop_consumer : Option Consumer → Kafka → Kafka
  drop_consumer none q = q
  drop_consumer (some c) q = record q {
    consumer = none;
    topic = none;
    outside =
        lib.wait_destroyed 5000
          (lib.delete_consumer c (drop_topic c q.topic q.partition q.outside));
  }

  unfoldable pub disconnect : Kafka → Kafka
  disconnect q = drop_consumer q.consumer q
