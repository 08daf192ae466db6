-- ===== src/HealthController/Waiting.antt =====
-- That the future of a health request becomes ready and no task waits for it in vain.
use rudr.Prelude.{
  ℕ, String, ◌≡◌, ◌∙◌, refl, Bool, true, false, Option, none, some, List, [], ◌∷◌, Result,
  Bool-cases, inl, inr, ◌⊎◌, Member, arith,
}
use rudr.Client.{Error}
use rudr.HealthController.Answering.{
  SharedState, new_shared_state, Poll, ready, not_ready, poll, answer_of, complete,
}

-- The shared state, whether the thread is running, the tasks it notified, and the task that was
-- last told to wait.
pub record System : Type 0 where
  pub shared : SharedState
  pub running : Bool
  pub notified : List ℕ
  pub waiting : Option ℕ

abbrev pub new_system : System
new_system = record { shared = new_shared_state; running = true; notified = []; waiting = none }

abbrev waits : ℕ → Poll → Option ℕ → Option ℕ
waits t (ready _) before = before
waits t not_ready before = some t

abbrev notify : Option ℕ → List ℕ → List ℕ
notify none ts = ts
notify (some t) ts = t ∷ ts

abbrev pub polled_by : ℕ → System → System
polled_by t s = record s {
  shared = (poll t s.shared).1;
  waiting = waits t (poll t s.shared).0 s.waiting;
}

abbrev pub completed_with : String → System → System
completed_with res s = record s {
  shared = (complete res s.shared).0;
  running = false;
  notified = notify (complete res s.shared).1 s.notified;
}

-- Any task may poll at any time, and the thread ends once.
pub data Step (outcome : Result Error String) : System → System → Type 0 where
  polled : (t : ℕ) (s : System) → Step outcome s (polled_by t s)
  ended :
      (res : String) (s : System)
      → s.running ≡ true
      → answer_of outcome ≡ some res
      → Step outcome s (completed_with res s)

pub data Reach (outcome : Result Error String) (s : System) : System → Type 0 where
  here : Reach outcome s s
  next : {t u : System} → Reach outcome s t → Step outcome t u → Reach outcome s u

abbrev IsAwake : Result Error String → System → Type 0
IsAwake outcome s =
    (s.running ≡ true → (s.shared.completed ≡ false) × (s.shared.task ≡ s.waiting))
    × (s.running ≡ false
        → (s.shared.completed ≡ true)
          × (answer_of outcome ≡ some s.shared.resp)
          × ((t : ℕ) → s.waiting ≡ some t → Member t s.notified))

Step-IsAwake :
    (outcome : Result Error String) {s u : System}
    → Step outcome s u
    → IsAwake outcome s
    → IsAwake outcome u
unfolding poll complete
Step-IsAwake outcome (polled t s) (runs, over) = elim (Bool-cases s.running) [
  | inl running ↦ (λ _. ground (arith, runs running), λ h. ground (arith, h, running))
  | inr stopped ↦ (
    λ h. ground (arith, h, stopped),
    λ _. let (done, answered, woken) = over stopped in rw (poll, done) (refl, answered, woken),
  )
]
Step-IsAwake outcome (ended res s running answered) (runs, over) = (
  λ h. ground arith,
  λ _. (
    refl,
    answered,
    λ t waits_on.
        let asked : s.shared.task ≡ some t = (runs running).1 ∙ waits_on in rw asked (inl refl),
  ),
)

Reach-IsAwake :
    (outcome : Result Error String) {s u : System}
    → IsAwake outcome s
    → Reach outcome s u
    → IsAwake outcome u
Reach-IsAwake outcome h here = h
Reach-IsAwake outcome h (next r st) = Step-IsAwake outcome st (Reach-IsAwake outcome h r)

new_system-IsAwake : (outcome : Result Error String) → IsAwake outcome new_system
new_system-IsAwake outcome = (λ _. (refl, refl), λ h. ground arith)

-- Whatever the tasks and the thread have done, if the thread's work does not panic then the health
-- request is answered: either the thread has ended, and then the next poll of any task is ready with
-- the answer and the task that was last told to wait has been notified; or the thread can still end.
pub request_answered :
    (outcome : Result Error String) (res : String) (s : System)
    → answer_of outcome ≡ some res
    → Reach outcome new_system s
    → ((s.running ≡ false)
        × ((t : ℕ) → (poll t s.shared).0 ≡ ready res)
        × ((t : ℕ) → s.waiting ≡ some t → Member t s.notified))
      ⊎ ((u : System) × Step outcome s u
          × (u.running ≡ false)
          × ((t : ℕ) → (poll t u.shared).0 ≡ ready res))
unfolding poll complete
request_answered outcome res s answers r =
    let (runs, over) = Reach-IsAwake outcome (new_system-IsAwake outcome) r in
    elim (Bool-cases s.running) [
      | inl running ↦ inr (completed_with res s, ended res s running answers, refl, λ _. refl)
      | inr stopped ↦
          let (done, answered, woken) = over stopped in
          inl (stopped, λ t. ground (arith, done, answered, answers), woken)
    ]
