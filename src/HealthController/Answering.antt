-- ===== src/HealthController/Answering.antt =====
-- `serve_health` and `HealthFuture`: a request for the health of a scope is answered by a thread of
-- its own, and the future that stands for the answer is polled by tasks.
-- A task is a number. The shared state is behind a mutex, so each poll and the end of the thread are
-- one step.
use rudr.Prelude.{
  ℕ, String, ◌==◌, ◌&&◌, Bool, true, false, Option, none, some, Result, ok, err, if◌then◌else◌,
}
use rudr.Client.{Error, kube, message, panicked}

-- `path.trim_start_matches('/')`
unfoldable pub trim_start_slashes : String → String
trim_start_slashes String.[] = ""
trim_start_slashes (String.◌∷◌ c s) =
    let rest = trim_start_slashes s in if String.◌∷◌ c "" == "/" then rest else String.◌∷◌ c s

pub data HealthResponse : Type 0 where
  not_found : HealthResponse
  health_of : String → HealthResponse

-- By the request's method and path: the future of a scope's health, or a response at once.
unfoldable pub serve_health : String → String → HealthResponse
unfolding trim_start_slashes
serve_health method path =
    if method == "GET" then health_of (trim_start_slashes path) else not_found

pub record SharedState : Type 0 where
  pub completed : Bool
  pub resp : String
  pub task : Option ℕ

abbrev pub new_shared_state : SharedState
new_shared_state = record { completed = false; resp = ""; task = none }

pub data Poll : Type 0 where
  ready : String → Poll
  not_ready : Poll

unfoldable pub poll : ℕ → SharedState → Poll × SharedState
poll current shared_state =
    if shared_state.completed
    then (ready shared_state.resp, shared_state)
    else (not_ready, record shared_state { task = some current })

-- What the thread makes of the outcome of `request_health`; a panic ends it before.
abbrev pub answer_of : Result Error String → Option String
answer_of (ok status) = some status
answer_of (err (kube e)) = some e.text
answer_of (err (message t)) = some t
answer_of (err panicked) = none

-- The end of the thread: the state, and the task that it notifies.
unfoldable pub complete : String → SharedState → SharedState × Option ℕ
complete res shared_state =
    (record shared_state { completed = true; resp = res }, shared_state.task)

-- The response of the metrics endpoint, by the request's method and path: a status and a body.
unfoldable pub health_check : String → String → ℕ × String
health_check method path =
    if (method == "GET") && (path == "/health") then (200, "OK") else (404, "")
