-- ===== src/KubeEvents.antt =====
-- src/kube_event.rs: the events that the controller posts about the objects it handles.
-- The clock is a parameter: the time in nanoseconds, an `i64`, once the requests of a log are made.
use Prim.Native.Nat.{◌/◌}
use rudr.Prelude.{
  ℕ, zero, suc, ◌-◌, ◌%◌, ◌^◌, String, ◌<>◌, Option, none, some, List, [], ◌∷◌, Result, ok, err,
  unwrap_or, ltb, if◌then◌else◌,
}
use rudr.Prelude.Int.{ℤ, pos, negsuc}
use rudr.KubeObjects.{ObjectReference, KubeEvent}
use rudr.Configuration.{OpResource}
use rudr.Client.{Server, Request, Error, panicked, Action, request, create, event, events, fail}

pub data EventType : Type 0 where
  normal warning : EventType

-- `Display`
unfoldable pub event_type_text : EventType → String
event_type_text normal = "Normal"
event_type_text warning = "Warning"

pub record Info : Type 0 where
  pub action : String
  pub message : String
  pub reason : String

-- `Event`, whose client is the server that its operations take.
pub record EventHandler : Type 0 where
  pub namespace : String
  pub reporting_component : Option String
  pub reporting_instance : Option String

unfoldable pub new_event_handler : String → EventHandler
new_event_handler namespace = record {
  namespace = namespace;
  reporting_component = none;
  reporting_instance = none;
}

-- `{:x}` of an `i64`: the digits of its bit pattern, at most sixteen.
nth : List String → ℕ → String
nth [] n = ""
nth (d ∷ ds) zero = d
nth (d ∷ ds) (suc n) = nth ds n

hex_digit : ℕ → String
unfolding nth
hex_digit = nth (
    "0" ∷ "1" ∷ "2" ∷ "3" ∷ "4" ∷ "5" ∷ "6" ∷ "7" ∷ "8" ∷ "9" ∷ "a" ∷ "b" ∷ "c" ∷ "d" ∷ "e" ∷ "f"
    ∷ [])

hex_fuel : ℕ → ℕ → String
unfolding hex_digit
hex_fuel zero n = ""
hex_fuel (suc f) n =
    let front = hex_fuel f (n / 16) in if ltb n 16 then hex_digit n else front <> hex_digit (n % 16)

unfoldable pub to_hex : ℤ → String
unfolding hex_fuel
to_hex (pos n) = hex_fuel 16 n
to_hex (negsuc n) = hex_fuel 16 (2 ^ 64 - 1 - n)

-- The name of the object is unwrapped.
unfoldable pub make_event :
    ℤ
    → String
    → EventType
    → Info
    → ObjectReference
    → Option String
    → Option String
    → Result Error KubeEvent
unfolding to_hex event_type_text
make_event now namespace type_ info involved_object reporting_component reporting_instance =
    elim involved_object.name [
      | none ↦ err panicked
      | some name ↦ ok (record {
        name = name <> ("." <> to_hex now);
        namespace = some namespace;
        involved_object = involved_object;
        reporting_component = unwrap_or reporting_component "";
        reporting_instance = unwrap_or reporting_instance "";
        message = info.message;
        reason = info.reason;
        count = 1;
        type_ = event_type_text type_;
        action = some info.action;
        first_timestamp = some now;
        last_timestamp = some now;
      })
    ]

-- `get_object_ref` of src/instigator.rs.
unfoldable pub get_object_ref : OpResource → ObjectReference
get_object_ref o = record {
  api_version = o.api_version;
  kind = o.kind;
  name = some o.metadata.name;
  namespace = o.metadata.namespace;
  resource_version = o.metadata.resource_version;
  uid = o.metadata.uid;
}

module _ (now : List Request → ℤ) (server : Server) where
  unfoldable pub push_event_message :
      EventHandler → EventType → Info → ObjectReference → Action (Unit {0})
  unfolding make_event
  push_event_message self type_ info involved_object log =
      elim (make_event (now log) self.namespace type_ info involved_object self.reporting_component
        self.reporting_instance) [
          | err e ↦ fail e log
          | ok ev ↦ request server.accept (create self.namespace events (event ev)) log
        ]
