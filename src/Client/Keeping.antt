-- ===== src/Client/Keeping.antt =====
-- Requests that were made stay in the log.
use rudr.Prelude.{
  ◌≡◌, refl, inl, List, [], ◌∷◌, Result, ok, err, Member, Any-append_left, Any-append_right,
}
use rudr.Cluster.{KubeError}
use rudr.Client.{
  Request, Error, kube, message, panicked, Action, request, pure, fail, resume, ◌>>=◌, ◌>>◌, handle,
  unwrap_or_else, from_result,
}

module _ (q : Request) where
  -- The action leaves the request in the log.
  abbrev pub IsKeptBy : {A : Type 0} → Action A → Type 0
  IsKeptBy m = (log : List Request) → Member q log → Member q (m log).1

  pub pure-IsKeptBy : {A : Type 0} (a : A) → IsKeptBy (pure a)
  unfolding pure
  pure-IsKeptBy a log h = h

  pub fail-IsKeptBy : (A : Type 0) (e : Error) → IsKeptBy (fail {A = A} e)
  unfolding fail
  fail-IsKeptBy A e log h = h

  pub from_result-IsKeptBy : {A : Type 0} (r : Result Error A) → IsKeptBy (from_result r)
  unfolding from_result
  from_result-IsKeptBy r log h = h

  pub request-IsKeptBy :
      {A : Type 0} (answer : List Request → Request → Result KubeError A) (r : Request)
      → IsKeptBy (request answer r)
  unfolding request
  request-IsKeptBy answer r log h = Any-append_left (λ x. x ≡ q) log (r ∷ []) h

  pub resume-IsKeptBy :
      {A B : Type 0} (f : A → Action B) (p : Result Error A × List Request)
      → ((a : A) → IsKeptBy (f a))
      → Member q p.1
      → Member q (resume f p).1
  unfolding resume
  resume-IsKeptBy f (ok a, log) keeps h = keeps a log h
  resume-IsKeptBy f (err e, log) keeps h = h

  pub >>=-IsKeptBy :
      {A B : Type 0} (m : Action A) (f : A → Action B)
      → IsKeptBy m
      → ((a : A) → IsKeptBy (f a))
      → IsKeptBy (m >>= f)
  unfolding ◌>>=◌
  >>=-IsKeptBy m f first then_ log h = resume-IsKeptBy f (m log) then_ (first log h)

  pub >>-IsKeptBy :
      {B : Type 0} (m : Action (Unit {0})) (k : Action B)
      → IsKeptBy m
      → IsKeptBy k
      → IsKeptBy (m >> k)
  unfolding ◌>>◌
  >>-IsKeptBy m k first then_ = >>=-IsKeptBy m (λ _. k) first (λ _. then_)

  pub handle-IsKeptBy :
      {A : Type 0} (f : Error → Action A) (p : Result Error A × List Request)
      → ((e : Error) → IsKeptBy (f e))
      → Member q p.1
      → Member q (handle f p).1
  unfolding handle
  handle-IsKeptBy f (ok a, log) keeps h = h
  handle-IsKeptBy f (err panicked, log) keeps h = h
  handle-IsKeptBy f (err (kube e), log) keeps h = keeps (kube e) log h
  handle-IsKeptBy f (err (message e), log) keeps h = keeps (message e) log h

  pub unwrap_or_else-IsKeptBy :
      {A : Type 0} (m : Action A) (f : Error → Action A)
      → IsKeptBy m
      → ((e : Error) → IsKeptBy (f e))
      → IsKeptBy (unwrap_or_else m f)
  unfolding unwrap_or_else
  unwrap_or_else-IsKeptBy m f first then_ log h = handle-IsKeptBy f (m log) then_ (first log h)

-- A request stands in the log once it is made.
pub request_in_log :
    {A : Type 0} (answer : List Request → Request → Result KubeError A) (r : Request)
    (log : List Request)
    → Member r (request answer r log).1
unfolding request
request_in_log answer r log = Any-append_right (λ x. x ≡ r) log (r ∷ []) (inl refl)
