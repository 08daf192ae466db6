-- ===== src/Instigator/StatusPatch.antt =====
-- `retry_patch_status`: the loop that patches the status of a configuration and starts again from
-- the current object on a conflict.
-- The loop runs on fuel, one unit for a round; without fuel it is still running, which is `none`.
use rudr.Prelude.{
  ℕ, zero, suc, ◌+◌, ◌≤◌, String, ◌≡◌, ◌≢◌, refl, ap, ◌∙◌, inl, inr, true, false, Option, none,
  some, List, [], ◌∷◌, ◌++◌, length, Result, ok, err, Result-cases, Bool-cases, arith,
  if◌then◌else◌,
}
use rudr.BTreeMap.{BTreeMap}
use rudr.Cluster.{KubeError, has_reason}
use rudr.Configuration.{OamStatus, OpResource}
use rudr.Client.{
  configuration, configurations, patch, get, Server, Request, kube, Action, request, pure, resume,
  ◌>>=◌,
}

-- The annotations of the event are replaced where some are given.
abbrev with_annotations : Option (BTreeMap String) → OpResource → OpResource
with_annotations none event = event
with_annotations (some ann) event = record event {
  metadata = record event.metadata { annotations = ann };
}

unfoldable pub with_status : Option OamStatus → Option (BTreeMap String) → OpResource → OpResource
with_status status annotation event = with_annotations annotation (record event { status = status })

module _ (server : Server) (namespace name : String) (status : Option OamStatus)
    (annotation : Option (BTreeMap String)) where
  abbrev pub patch_request : OpResource → Request
  patch_request new_event = patch namespace configurations name (configuration new_event)

  unfoldable pub retry_patch_status : ℕ → OpResource → Action (Option (Unit {0}))
  unfolding with_status
  retry_patch_status zero event log = pure none log
  retry_patch_status (suc fuel) event log =
      let new_event = with_status status annotation event in
      let patched = log ++ (patch_request new_event ∷ []) in
      elim (server.read_configuration log (patch_request new_event)) [
        | ok _ ↦ (ok (some tt), patched)
        | err e ↦
            if has_reason "Conflict" e
            then (request server.read_configuration (get namespace configurations name)
                  >>= retry_patch_status fuel)
                patched
            else (err (kube e), patched)
      ]

-- A server that no longer reports conflicts once `n` requests have been made.
abbrev pub IsQuietAfter : Server → ℕ → Type 0
IsQuietAfter server n =
    (log : List Request) (r : Request) (e : KubeError)
    → n ≤ length log
    → server.read_configuration log r ≡ err e
    → has_reason "Conflict" e ≡ false

length-snoc : (log : List Request) (r : Request) → length (log ++ (r ∷ [])) ≡ suc (length log)
length-snoc [] r = refl
length-snoc (x ∷ log) r = ap suc (length-snoc log r)

again :
    (server : Server) (g : Request) (f : OpResource → Action (Option (Unit {0}))) (l : List Request)
    → ((request server.read_configuration g >>= f) l).0 ≡ ok none
    → (o : OpResource) × ((f o (l ++ (g ∷ []))).0 ≡ ok none)
unfolding ◌>>=◌ resume request
again server g f l e = elim (Result-cases (server.read_configuration l g)) [
  | inl (o, found) ↦ (o, rw (found, resume) at e)
  | inr (x, missing) ↦ absurd (cc (rw (missing, resume) at e))
]

module _ (server : Server) (namespace name : String) (status : Option OamStatus)
    (annotation : Option (BTreeMap String)) where
  abbrev answer : OpResource → List Request → Result KubeError OpResource
  answer event log =
      server.read_configuration log (
        patch_request server namespace name status annotation (with_status status annotation event))

  abbrev retry : ℕ → OpResource → Action (Option (Unit {0}))
  retry = retry_patch_status server namespace name status annotation

  -- A round without fuel for another: only a conflict leaves it running.
  last_round :
      (fuel : ℕ) (event : OpResource) (log : List Request)
      → (retry (suc fuel) event log).0 ≡ ok none
      → (x : KubeError) × (answer event log ≡ err x)
        × (has_reason "Conflict" x ≡ true)
        × ((o : OpResource) × (l : List Request) × (length l ≡ suc (suc (length log)))
            × ((retry fuel o l).0 ≡ ok none))
  unfolding retry_patch_status ◌>>=◌ resume request
  last_round fuel event log e = elim (Result-cases (answer event log)) [
    | inl (o, done) ↦ absurd (cc (rw (retry_patch_status, done) at e))
    | inr (x, refused) ↦ elim (Bool-cases (has_reason "Conflict" x)) [
      | inr other ↦ absurd (cc (rw (retry_patch_status, refused, other) at e))
      | inl conflict ↦ (
        x,
        refused,
        conflict,
        let patched =
              log
              ++ (patch_request server namespace name status annotation
                    (with_status status annotation event)
                  ∷ []) in
            let g = get namespace configurations name in
            let (o, running) =
              again server g (retry fuel) patched
                (rw (retry_patch_status, refused, conflict) at e) in
            (o, patched ++ (g ∷ []), length-snoc patched g ∙ ap suc (length-snoc log _), running),
      )
    ]
  ]

-- Where the server reports no conflict once `n` requests have been made, the loop ends: with one
-- unit of fuel more than is missing to `n` requests it does not run out.
pub retry_patch_status_ends :
    (server : Server) (namespace name : String) (status : Option OamStatus)
    (annotation : Option (BTreeMap String)) (n fuel : ℕ) (event : OpResource) (log : List Request)
    → IsQuietAfter server n
    → n ≤ fuel + length log
    → (retry_patch_status server namespace name status annotation (suc fuel) event log).0 ≢ ok none
retry_patch_status_ends server ns name status ann n zero event log quiet h e =
    let (x, refused, conflict, _) = last_round server ns name status ann zero event log e in
    let calm : has_reason "Conflict" x ≡ false = quiet log _ x (ground (arith, h)) refused in
    ground (arith, conflict, calm)
retry_patch_status_ends server ns name status ann n (suc fuel) event log quiet h e =
    let (_, _, _, (o, l, longer, running)) =
      last_round server ns name status ann (suc fuel) event log e in
    retry_patch_status_ends server ns name status ann n fuel o l quiet (ground (arith, longer, h))
      running
