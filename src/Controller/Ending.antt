-- ===== src/Controller/Ending.antt =====
-- That handling an event of the watch ends.
use rudr.Prelude.{ℕ, suc, ◌≤◌, String, ◌==◌, ap, sym, ok, err, ◌∙◌, inl, inr, List, Bool-cases}
use rudr.Lifecycle.{Phase}
use rudr.Configuration.{OpResource}
use rudr.Client.{kube, message, panicked, Server, Request, pure, fail}
use rudr.Instigator.Setting.{Platform}
use rudr.Instigator.StatusPatch.{IsQuietAfter}
use rudr.Instigator.Execution.{add, modify, delete}
use rudr.Instigator.Ending.{IsRunning, exec_ends}
use rudr.Controller.{WatchEvent, added, modified, deleted, error, handle_event}
use rudr.Controller.Reporting.{Outcome, IsReported, handle_event-IsReported}

reported_ends :
    (namespace action : String) (o : OpResource) (before after : Outcome)
    → IsReported namespace action o before after
    → (¬ IsRunning before)
    → ¬ IsRunning after
reported_ends ns action o (ok a, log) after same ends (l, h) = ends (l, sym same ∙ h)
reported_ends ns action o (err panicked, log) after same ends (l, h) = ends (l, sym same ∙ h)
reported_ends ns action o (err (kube e), log) after (posted, about, is) ends (l, h) =
    cc (ap (λ p. p.0) (sym is ∙ h))
reported_ends ns action o (err (message t), log) after (posted, about, is) ends (l, h) =
    cc (ap (λ p. p.0) (sym is ∙ h))

-- Where the server reports no conflict once `n` requests have been made, handling any event of the
-- watch ends: with one unit of fuel more than `n` it does not run out.
pub handle_event_ends :
    (platform : Platform) (server : Server) (namespace : String) (n fuel : ℕ) (e : WatchEvent)
    (log : List Request)
    → IsQuietAfter server n
    → n ≤ fuel
    → ¬ IsRunning (handle_event platform server namespace (suc fuel) e log)
unfolding handle_event add modify delete pure fail
handle_event_ends platform server ns n fuel (added o) log quiet enough =
    reported_ends ns "create" o _ _ (handle_event-IsReported platform server ns (suc fuel) o log).0
      (exec_ends platform server ns n fuel quiet enough o Phase.add log)
handle_event_ends platform server ns n fuel (modified o) log quiet enough =
    reported_ends ns "update" o _ _ (handle_event-IsReported platform server ns (suc fuel) o log).1
      (exec_ends platform server ns n fuel quiet enough o Phase.modify log)
handle_event_ends platform server ns n fuel (deleted o) log quiet enough =
    exec_ends platform server ns n fuel quiet enough o Phase.delete log
handle_event_ends platform server ns n fuel (error x) log quiet enough =
    elim (Bool-cases (x.reason == "AlreadyExists")) [
      | inl known ↦ λ (l, h). cc (ap (λ p. p.0) (rw known at h))
      | inr other ↦ λ (l, h). cc (ap (λ p. p.0) (rw other at h))
    ]
