-- ===== src/Controller/Isolation.antt =====
-- That an event of the watch that fails does not keep the later ones from being handled.
use rudr.Prelude.{ℕ, String, ◌≡◌, List, [], ◌∷◌, err}
use rudr.Client.{Server, Request, panicked}
use rudr.Instigator.Setting.{Platform}
use rudr.Controller.{WatchEvent, handle_event}

module _ (platform : Platform) (server : Server) (namespace : String) (fuel : ℕ) where
  -- The requests once each event is handled, whatever came of it.
  unfoldable pub trail : List WatchEvent → List Request → List Request
  trail [] log = log
  trail (event ∷ events) log =
      trail events (handle_event platform server namespace fuel event log).1

  -- The events up to one at which the controller panics.
  abbrev pub PanicsAt : List WatchEvent → WatchEvent → List Request → Type 0
  PanicsAt before event log =
      (handle_event platform server namespace fuel event (trail before log)).0 ≡ err panicked
