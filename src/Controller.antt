-- ===== src/Controller.antt =====
-- src/main.rs: how the controller handles the events of its watch, syncs statuses, and checks the
-- resource definitions at its start.
-- `WatchEvent` is the `kube` crate's enum; of an `ApiError` the reason is read, and
-- printed where the source prints all of it.
pub mod Reporting
pub mod Watching
pub mod Ending
pub mod Isolation
mod Tests
use rudr.Prelude.{ℕ, String, ◌<>◌, ◌==◌, Option, none, some, List, [], ◌∷◌, if◌then◌else◌}
use rudr.Configuration.{OpResource}
use rudr.KubeEvents.{warning, Info, new_event_handler, get_object_ref, push_event_message}
use rudr.Client.{
  Server, Error, kube, message, panicked, Action, request, pure, fail, ◌>>=◌, ◌>>◌, unwrap_or_else,
  get, custom_resource_definitions,
}
use rudr.Instigator.Setting.{Platform}
use rudr.Instigator.Execution.{add, modify, delete}
use rudr.Instigator.Sync

pub record ApiError : Type 0 where
  pub reason : String

pub data WatchEvent : Type 0 where
  added : OpResource → WatchEvent
  modified : OpResource → WatchEvent
  deleted : OpResource → WatchEvent
  error : ApiError → WatchEvent

-- `{}` of an error.
abbrev pub error_text : Error → String
error_text (kube e) = e.text
error_text (message t) = t
error_text panicked = ""

abbrev pub report_info : String → OpResource → Error → Info
report_info action o err = record {
  action = action;
  message = action <> (" config " <> (o.metadata.name <> " error"));
  reason = error_text err;
}

module _ (platform : Platform) (server : Server) (namespace : String) where
  -- What is posted about a failure; a failure to post is logged and dropped.
  unfoldable pub report : String → OpResource → Error → Action (Option (Unit {0}))
  report action o err =
      unwrap_or_else
        (push_event_message platform.now server (new_event_handler namespace) warning
          (report_info action o err) (get_object_ref o))
        (λ _. pure tt)
      >> fail err

  unfoldable pub handle_event : ℕ → WatchEvent → Action (Option (Unit {0}))
  unfolding report add modify delete
  handle_event fuel (added o) =
      unwrap_or_else (add platform server namespace fuel o) (report "create" o)
  handle_event fuel (modified o) =
      unwrap_or_else (modify platform server namespace fuel o) (report "update" o)
  handle_event fuel (deleted o) = delete platform server namespace fuel o
  handle_event fuel (error e) =
      if e.reason == "AlreadyExists"
      then pure (some tt)
      else fail (message ("APIError: " <> e.reason))

  -- The watch's loop: an event that fails is logged and the next is handled.
  unfoldable pub handle_events : ℕ → List WatchEvent → Action (Unit {0})
  unfolding handle_event
  handle_events fuel [] = pure tt
  handle_events fuel (event ∷ events) =
      unwrap_or_else (handle_event fuel event >>= λ _. pure tt) (λ _. pure tt)
      >> handle_events fuel events

  unfoldable pub sync_status : ℕ → OpResource → Action (Option (Unit {0}))
  sync_status fuel o = Sync.sync_status platform server namespace fuel o

abbrev pub crds : List String
crds = "applicationconfigurations" ∷ "traits" ∷ "componentschematics" ∷ "applicationscopes" ∷ []

module _ (server : Server) where
  unfoldable pub check_crds : List String → Action (Unit {0})
  check_crds [] = pure tt
  check_crds (crd ∷ rest) =
      unwrap_or_else
        (request server.accept (get "" custom_resource_definitions (crd <> ".core.oam.dev")))
        (λ _. fail (message ("Missing CRD " <> crd)))
      >> check_crds rest

  unfoldable pub precheck_crds : Action (Unit {0})
  unfolding check_crds
  precheck_crds = check_crds crds
