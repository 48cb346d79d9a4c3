-- ===== src/Types.antt =====
-- The plain data of rmqtt/src/broker/types.rs: quality of service, messages and identities.
use Prim.Native.String.{String}
use text.Mathlib.Text.{◌==◌ as str_eq}
use text.Mathlib.TextEquality.{eq_iff}
use rmqtt.Common.{
  ℕ, ◌==◌, ◌≡◌, Bool, true, false, ◌&&◌, Option, none, some, List, [], ◌∷◌, Key, ltb, nat_key,
  arith, if◌then◌else◌, ◌↔◌,
}

instance abbrev pub string_key : Key String
string_key = record { same = str_eq; same_iff = eq_iff }

pub data QoS : Type 0 where
  at_most_once at_least_once exactly_once : QoS

abbrev pub value : QoS → ℕ
value at_most_once = 0
value at_least_once = 1
value exactly_once = 2

abbrev pub less_value : QoS → QoS → QoS
less_value self qos = if ltb (value self) (value qos) then self else qos

-- `PublishProperties`, less the properties that the broker only passes on.
pub record PublishProperties : Type 0 where
  pub topic_alias : Option ℕ
  pub message_expiry_interval : Option ℕ
  pub subscription_ids : Option (List ℕ)

-- `packet_id` is a nonzero 16-bit number where there is one; a payload is its bytes.
pub record Publish : Type 0 where
  pub dup : Bool
  pub retain : Bool
  pub qos : QoS
  pub topic : String
  pub packet_id : Option ℕ
  pub payload : List ℕ
  pub properties : PublishProperties
  pub create_time : ℕ

abbrev pub set_dup : Bool → Publish → Publish
set_dup b p = record p { dup = b }

abbrev pub is_empty : Publish → Bool
is_empty p = elim p.payload [ [] ↦ true | _ ∷ _ ↦ false ]

abbrev pub packet_id_is_none : Publish → Bool
packet_id_is_none p = elim p.packet_id [ none ↦ true | some _ ↦ false ]

-- `NonZeroU16::new` is `None` at 0.
abbrev pub set_packet_id : ℕ → Publish → Publish
set_packet_id id p = record p { packet_id = if id == 0 then none else some id }

-- An identity. A socket address is opaque: only its equality is read.
pub record Identity : Type 0 where
  pub node_id : ℕ
  pub local_addr : Option ℕ
  pub remote_addr : Option ℕ
  pub client_id : String
  pub username : Option String
  pub create_time : ℕ

module _ {A : Type 0} ⦃k : Key A⦄ where
  abbrev pub option_same : Option A → Option A → Bool
  option_same none none = true
  option_same (some a) (some b) = k.same a b
  option_same _ _ = false

  pub option_same_iff : (a b : Option A) → (option_same a b ≡ true) ↔ (a ≡ b)
  option_same_iff none none = ground arith
  option_same_iff (some a) (some b) = ground (arith, k.same_iff a b)
  option_same_iff none (some b) = ground arith
  option_same_iff (some a) none = ground arith

abbrev pub id_same : Identity → Identity → Bool
id_same a o =
    a.node_id == o.node_id
    && (str_eq a.client_id o.client_id
        && (option_same a.local_addr o.local_addr
            && (option_same a.remote_addr o.remote_addr
                && (option_same a.username o.username && a.create_time == o.create_time))))

-- The written equality of identities decides the equality of all six fields.
pub id_same_iff : (a b : Identity) → (id_same a b ≡ true) ↔ (a ≡ b)
id_same_iff a b = ground (
  arith,
  eq_iff a.client_id b.client_id,
  option_same_iff a.local_addr b.local_addr,
  option_same_iff a.remote_addr b.remote_addr,
  option_same_iff a.username b.username,
)

instance abbrev pub id_key : Key Identity
id_key = record { same = id_same; same_iff = id_same_iff }

pub data FromType : Type 0 where
  custom admin system last_will bridge : FromType

pub record From : Type 0 where
  pub typ : FromType
  pub id : Identity

-- A retained message.
pub record Retain : Type 0 where
  pub msg_id : Option ℕ
  pub from : From
  pub publish : Publish
