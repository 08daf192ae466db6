-- ===== src/Controller/Watching.antt =====
-- The loops of the threads of src/main.rs: the watch of configurations and the sync of statuses.
-- What the informer of the `kube` crate yields is given: the result of its start and of each poll.
use rudr.Prelude.{
  ℕ, String, ◌==◌, ◌&&◌, Option, none, some, List, [], ◌∷◌, map, Result, ok, err, if◌then◌else◌,
}
use rudr.Configuration.{OpResource}
use rudr.Client.{
  Server, Error, Action, request, pure, fail, ◌>>=◌, ◌>>◌, unwrap_or_else, attempt, from_result,
  list, configurations,
}
use rudr.Instigator.Setting.{Platform}
use rudr.Controller.{WatchEvent, added, handle_events, sync_status}

module _ (platform : Platform) (server : Server) (namespace : String) where
  -- The configurations that are there at the start are handled as added; if they cannot be listed,
  -- that is logged.
  unfoldable pub handle_existing : ℕ → Option (List OpResource) → Action (Unit {0})
  handle_existing fuel none = pure tt
  handle_existing fuel (some items) = handle_events platform server namespace fuel (map added items)

  -- A poll that fails ends the watch.
  unfoldable pub poll_loop : ℕ → List (Result Error (List WatchEvent)) → Action (Unit {0})
  poll_loop fuel [] = pure tt
  poll_loop fuel (err e ∷ polls) = fail e
  poll_loop fuel (ok events ∷ polls) =
      handle_events platform server namespace fuel events >> poll_loop fuel polls

  unfoldable pub configuration_watch :
      ℕ → Result Error (Unit {0}) → List (Result Error (List WatchEvent)) → Action (Unit {0})
  unfolding handle_existing poll_loop
  configuration_watch fuel init polls =
      (attempt (request server.list_configurations (list namespace configurations))
        >>= handle_existing fuel)
      >> from_result init
      >> poll_loop fuel polls

  -- A status that cannot be synced is logged.
  unfoldable pub sync_all : ℕ → List OpResource → Action (Unit {0})
  sync_all fuel [] = pure tt
  sync_all fuel (cfg ∷ items) =
      unwrap_or_else (sync_status platform server namespace fuel cfg >>= λ _. pure tt)
        (λ _. pure tt)
      >> sync_all fuel items

  abbrev sync_listed : ℕ → Option (List OpResource) → Action (Unit {0})
  sync_listed fuel none = pure tt
  sync_listed fuel (some items) = sync_all fuel items

  -- A round of the loop that syncs statuses.
  unfoldable pub sync_round : ℕ → Action (Unit {0})
  unfolding sync_all
  sync_round fuel =
      attempt (request server.list_configurations (list namespace configurations))
      >>= sync_listed fuel

-- The response of the metrics endpoint, by the request's method and path: a status and a body.
unfoldable pub metrics_response : String → String → ℕ × String
metrics_response method path =
    if (method == "GET") && (path == "/health") then (200, "OK") else (404, "")
