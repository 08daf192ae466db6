-- ===== src/Client/Laws.antt =====
-- Running a list of requests, one after another up to the first refusal: what the creating
-- operations of the workload types are compared with.
use rudr.Prelude.{
  ◌≡◌, refl, ◌⊎◌, ap, sym, ◌∙◌, List, [], ◌∷◌, ◌++◌, Result, ok, err, append_assoc, append-nil,
  arith, Result-cases, inl, inr,
}
use rudr.Client.{
  Server, Request, Error, kube, message, panicked, handle, unwrap_or_else, Action, request, pure,
  resume, ◌>>=◌, ◌>>◌,
}

-- The requests in order, up to the first that is refused.
unfoldable pub run : Server → List Request → Action (Unit {0})
run server [] = pure tt
run server (r ∷ rs) = request server.accept r >> run server rs

-- A log that is `before`, then some of `rs` from its start.
abbrev pub IsPrefix : List Request → List Request → Type 0
IsPrefix ps rs = (rest : List Request) × (rs ≡ ps ++ rest)

module _ (server : Server) where
  run-append :
      (xs ys : List Request) (log : List Request)
      → run server (xs ++ ys) log ≡ (run server xs >> run server ys) log
  unfolding run request pure ◌>>◌ ◌>>=◌ resume
  run-append [] ys log = refl
  run-append (x ∷ xs) ys log = elim (Result-cases (server.accept log x)) [
    | inl (a, e) ↦ rw e (run-append xs ys (log ++ (x ∷ [])))
    | inr (e, h) ↦ rw h refl
  ]

  -- Running a list either sends it all, or stops at the first request that is refused.
  pub run_lem :
      (rs : List Request) (log : List Request)
      → (run server rs log ≡ (ok tt, log ++ rs))
        ⊎ ((ps : List Request) × (r : Request) × (rest : List Request) × (e : _) × (rs
              ≡ ps ++ (r ∷ rest))
            × (server.accept (log ++ ps) r ≡ err e)
            × (run server rs log ≡ (err (kube e), (log ++ ps) ++ (r ∷ []))))
  unfolding run request pure ◌>>◌ ◌>>=◌ resume
  run_lem [] log = inl (ground (arith, append-nil log))
  run_lem (x ∷ xs) log = elim (Result-cases (server.accept log x)) [
    | inl (a, e) ↦ elim (run_lem xs (log ++ (x ∷ []))) [
      | inl whole ↦ inl (rw (e, whole, append_assoc log (x ∷ []) xs) refl)
      | inr (ps, r, rest, e', split, refused, stops) ↦ inr (
        x ∷ ps,
        r,
        rest,
        e',
        ap (λ l. x ∷ l) split,
        rw (← append_assoc log (x ∷ []) ps) refused,
        rw (e, stops, append_assoc log (x ∷ []) ps) refl,
      )
    ]
    | inr (e, h) ↦ inr ([], x, xs, e, refl, rw (append-nil log) h, rw (h, append-nil log) refl)
  ]

  -- The action does what running the list does.
  abbrev pub IsRun : Action (Unit {0}) → List Request → Type 0
  IsRun m rs = (log : List Request) → m log ≡ run server rs log

  pub pure-IsRun : IsRun (pure tt) []
  unfolding run
  pure-IsRun log = refl

  pub request-IsRun : (r : Request) → IsRun (request server.accept r) (r ∷ [])
  unfolding run request pure ◌>>◌ ◌>>=◌ resume
  request-IsRun r log = elim (Result-cases (server.accept log r)) [
    | inl (a, e) ↦ rw e refl
    | inr (e, h) ↦ rw h refl
  ]

  pub >>-IsRun :
      (m k : Action (Unit {0})) (xs ys : List Request)
      → IsRun m xs
      → IsRun k ys
      → IsRun (m >> k) (xs ++ ys)
  unfolding ◌>>◌ ◌>>=◌ resume
  >>-IsRun m k xs ys first then_ log =
      rw (first log) (ext (run server xs log)) ∙ sym (run-append xs ys log)
    where
      ext :
          (p : Result Error (Unit {0}) × List Request)
          → resume (λ _. k) p ≡ resume (λ _. run server ys) p
      ext (ok a, l) = then_ l
      ext (err e, l) = refl

-- Inversion of a bind and of a handler that succeed.
pub >>=-ok :
    {A B : Type 0} (m : Action A) (f : A → Action B) (log l' : List Request) (b : B)
    → (m >>= f) log ≡ (ok b, l')
    → (a : A) × (l : List Request) × (m log ≡ (ok a, l)) × (f a l ≡ (ok b, l'))
unfolding ◌>>=◌ resume
>>=-ok {A = A} m f log l' b h = inverted (m log) h
  where
    inverted :
        (p : Result Error A × List Request)
        → resume f p ≡ (ok b, l')
        → (a : A) × (l : List Request) × (p ≡ (ok a, l)) × (f a l ≡ (ok b, l'))
    inverted (ok a, l) h = (a, l, refl, h)
    inverted (err e, l) h = cc (ap (λ t. t.0) h)

pub unwrap_or_else-ok :
    {A : Type 0} (m : Action A) (f : Error → Action A) (log l' : List Request) (a : A)
    → unwrap_or_else m f log ≡ (ok a, l')
    → (m log ≡ (ok a, l'))
      ⊎ ((e : Error) × (l : List Request) × (m log ≡ (err e, l)) × (f e l ≡ (ok a, l')))
unfolding unwrap_or_else handle
unwrap_or_else-ok {A = A} m f log l' a h = inverted (m log) h
  where
    inverted :
        (p : Result Error A × List Request)
        → handle f p ≡ (ok a, l')
        → (p ≡ (ok a, l'))
          ⊎ ((e : Error) × (l : List Request) × (p ≡ (err e, l)) × (f e l ≡ (ok a, l')))
    inverted (ok x, l) h = inl h
    inverted (err (kube x), l) h = inr (kube x, l, refl, h)
    inverted (err (message x), l) h = inr (message x, l, refl, h)
    inverted (err panicked, l) h = cc (ap (λ t. t.0) h)

pub >>-pure_ok :
    {A : Type 0} (m : Action (Unit {0})) (a b : A) (log l' : List Request)
    → (m >> pure a) log ≡ (ok b, l')
    → a ≡ b
unfolding ◌>>◌ pure
>>-pure_ok m a b log l' h = let (u, l, _, last) = >>=-ok m (λ _. pure a) log l' b h in ground arith

pub >>-ok :
    {B : Type 0} (m : Action (Unit {0})) (k : Action B) (log l' : List Request) (b : B)
    → (m >> k) log ≡ (ok b, l')
    → (l : List Request) × (k l ≡ (ok b, l'))
unfolding ◌>>◌
>>-ok m k log l' b h = let (u, l, _, last) = >>=-ok m (λ _. k) log l' b h in (l, last)
