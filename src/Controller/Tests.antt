-- ===== src/Controller/Tests.antt =====
-- Examples of handling events of the watch.
use rudr.Prelude.{List, ◌∷◌, none, ◌≡◌, refl, subst, false, [], arith}
use rudr.Instigator.Execution.{add, modify, delete, exec}
use rudr.Instigator.{config_owner_reference}
use rudr.Configuration.{OpResource}
use rudr.Client.{Error, message}
use rudr.Instigator.ExecutionTests.{platform, cluster, o}
use rudr.Controller.{WatchEvent, added, modified, deleted, handle_event}
use rudr.Client.Example.{not_found}
use rudr.Cluster.{has_reason}
use rudr.Instigator.StatusPatch.{IsQuietAfter}
use rudr.Instigator.Ending.{IsRunning}
use rudr.Controller.Ending.{handle_event_ends}
use rudr.Controller.Reporting.{IsReported, IsPosted, handle_event-IsReported}

abbrev without_uid : Error
without_uid = message "Mysteriously, no UID was created. Ancient version of Kubernetes?"

-- A configuration without an identity, which is not handled.
abbrev refused : OpResource
refused = record o { metadata = record o.metadata { uid = none } }

-- Its failure is posted as a warning.
refused_lem :
    IsPosted "default" "create" refused without_uid []
      (handle_event platform cluster "default" 1 (added refused) [])
unfolding add exec config_owner_reference rudr.Client.◌>>=◌ rudr.Client.from_result
refused_lem = (handle_event-IsReported platform cluster "default" 1 refused []).0

handle_event-IsReported_example :
    IsReported "default" "create" refused
      (add platform cluster "default" 1 refused [])
      (handle_event platform cluster "default" 1 (added refused) [])
    × IsReported "default" "update" refused
        (modify platform cluster "default" 1 refused [])
        (handle_event platform cluster "default" 1 (modified refused) [])
    × (handle_event platform cluster "default" 1 (deleted refused) []
        ≡ delete platform cluster "default" 1 refused [])
handle_event-IsReported_example = handle_event-IsReported platform cluster "default" 1 refused []

-- The cluster refuses every patch, and never for a conflict.
cluster-IsQuietAfter : IsQuietAfter cluster 0
cluster-IsQuietAfter log r e h answered =
    let same : not_found ≡ e = ground (arith, answered) in
    subst (λ x. has_reason "Conflict" x ≡ false) same refl

handle_event_ends_example : ¬ IsRunning (handle_event platform cluster "default" 1 (added o) [])
handle_event_ends_example =
    handle_event_ends platform cluster "default" 0 0 (added o) [] cluster-IsQuietAfter (omega arith)

-- The first event fails, and the second is handled.
abbrev watched : List WatchEvent
watched = added refused ∷ modified o ∷ []
