-- ===== src/Controller/Reporting.antt =====
-- That reporting a failure keeps it.
use rudr.Prelude.{
  some, ◌<>◌, ℕ, String, ◌≡◌, refl, inl, inr, Option, List, [], ◌∷◌, ◌++◌, Result, ok, err,
  Result-cases,
}
use rudr.Configuration.{OpResource}
use rudr.KubeObjects.{KubeEvent}
use rudr.KubeEvents.{
  event_type_text, warning, new_event_handler, make_event, get_object_ref, push_event_message,
}
use rudr.Client.{
  Server, Request, Error, kube, message, panicked, request, pure, fail, resume, ◌>>=◌, ◌>>◌,
  unwrap_or_else, handle, create, event, events,
}
use rudr.Instigator.Setting.{Platform}
use rudr.Instigator.Execution.{add, modify, delete}
use rudr.Controller.{added, modified, deleted, error_text, report_info, report, handle_event}

abbrev pub Outcome : Type 0
Outcome = Result Error (Option (Unit {0})) × List Request

-- A warning about the configuration, with the text of the error.
abbrev pub IsWarning : String → OpResource → Error → KubeEvent → Type 0
IsWarning action o e posted =
    (posted.type_ ≡ "Warning")
    × (posted.action ≡ some action)
    × (posted.message ≡ action <> (" config " <> (o.metadata.name <> " error")))
    × (posted.reason ≡ error_text e)
    × (posted.involved_object ≡ get_object_ref o)

-- The error stays, and one event, a warning, is posted last.
abbrev pub IsPosted : String → String → OpResource → Error → List Request → Outcome → Type 0
IsPosted namespace action o e log after =
    (posted : KubeEvent) × IsWarning action o e posted
    × (after ≡ (err e, log ++ (create namespace events (event posted) ∷ [])))

-- What an outcome is after its failure is reported: a success and a panic are as before.
abbrev pub IsReported : String → String → OpResource → Outcome → Outcome → Type 0
IsReported namespace action o (ok a, log) after = after ≡ (ok a, log)
IsReported namespace action o (err panicked, log) after = after ≡ (err panicked, log)
IsReported namespace action o (err (kube e), log) after =
    IsPosted namespace action o (kube e) log after
IsReported namespace action o (err (message t), log) after =
    IsPosted namespace action o (message t) log after

module _ (platform : Platform) (server : Server) (namespace : String) where
  push_lem :
      (action : String) (o : OpResource) (e : Error) (log : List Request)
      → (posted : KubeEvent) × IsWarning action o e posted
        × (push_event_message platform.now server
              (new_event_handler namespace)
              warning
              (report_info action o e)
              (get_object_ref o)
              log
            ≡ request server.accept (create namespace events (event posted)) log)
  unfolding push_event_message make_event get_object_ref new_event_handler event_type_text
  push_lem action o e log = (_, (refl, refl, refl, refl, refl), refl)

  dropped_lem :
      (r : Request) (e : Error) (log : List Request)
      → resume
          (λ _. fail {A = Option (Unit {0})} e)
          (handle (λ _. pure tt) (request server.accept r log))
        ≡ (err e, log ++ (r ∷ []))
  unfolding resume handle request fail pure
  dropped_lem r e log = elim (Result-cases (server.accept log r)) [
    | inl (u, accepted) ↦ rw accepted refl
    | inr (x, refused) ↦ rw refused refl
  ]

  report_lem :
      (action : String) (o : OpResource) (e : Error) (log : List Request)
      → IsPosted namespace action o e log (report platform server namespace action o e log)
  unfolding report ◌>>◌ ◌>>=◌ unwrap_or_else
  report_lem action o e log =
      let (posted, about, pushed) = push_lem action o e log in
      (
        posted,
        about,
        rw (report, pushed) (dropped_lem (create namespace events (event posted)) e log),
      )

  handle_lem :
      (action : String) (o : OpResource) (before : Outcome)
      → IsReported namespace action o before
          (handle (report platform server namespace action o) before)
  unfolding handle
  handle_lem action o (ok a, log) = refl
  handle_lem action o (err panicked, log) = refl
  handle_lem action o (err (kube e), log) = report_lem action o (kube e) log
  handle_lem action o (err (message t), log) = report_lem action o (message t) log

-- Handling an added or a modified configuration has the result of the instigator's operation, and
-- makes its requests. Where that succeeds or panics nothing is posted after them; where it fails with
-- an error, exactly one event is, a warning about the configuration with the operation and the text
-- of the error, and the result is that error whether or not the event is accepted. Handling a deleted
-- configuration has the result and the requests of the deletion, and no more.
pub handle_event-IsReported :
    (platform : Platform) (server : Server) (namespace : String) (fuel : ℕ) (o : OpResource)
    (log : List Request)
    → IsReported namespace "create" o
        (add platform server namespace fuel o log)
        (handle_event platform server namespace fuel (added o) log)
      × IsReported namespace "update" o
          (modify platform server namespace fuel o log)
          (handle_event platform server namespace fuel (modified o) log)
      × (handle_event platform server namespace fuel (deleted o) log
          ≡ delete platform server namespace fuel o log)
unfolding handle_event unwrap_or_else
handle_event-IsReported platform server ns fuel o log =
    (handle_lem platform server ns "create" o _, handle_lem platform server ns "update" o _, refl)
