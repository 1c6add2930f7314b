-- ===== src/Redis/Faults.antt =====
-- What an answer of a claim over Redis says, whatever becomes of the calls and whatever other clients
-- do between them.
use ani_session_gateway.Prelude.{
  ◌≡◌, ◌≢◌, refl, List, [], ◌∷◌, Occurs, here, there, Result, ok, err, Op, continue, ◌>>=◌,
}
use ani_session_gateway.Session.Errors.{Error, unavailable}
use ani_session_gateway.Redis.Scripts.{Fault, fault}
use ani_session_gateway.Redis.Operations.{
  Fate, arrives, request_lost, reply_lost, Delivery, World, call, answered, delivered,
}

-- Some call is lost, on the way there or on the way back.
abbrev pub IsLossy : {Db : Type 0} → List (Delivery Db) → Type 0
IsLossy {Db} ds = (e : Delivery Db) × Occurs e ds × (e.fate ≢ arrives)

module _ {Db : Type 0} where
  abbrev arrival_in : List (Delivery Db) → Db → Db
  arrival_in [] d = d
  arrival_in (e ∷ rest) d = e.meanwhile d

  -- The state of the server at which the next call arrives.
  abbrev pub arrival : World Db → Db
  arrival w = arrival_in w.deliveries w.db

  abbrev pub rest_of : List (Delivery Db) → List (Delivery Db)
  rest_of [] = []
  rest_of (e ∷ rest) = rest

  -- The world after that call, which leaves the server at `d`.
  abbrev pub next : World Db → Db → World Db
  next w d = record { db = d; deliveries = rest_of w.deliveries }

  pub IsLossy-rest_of : (ds : List (Delivery Db)) → IsLossy (rest_of ds) → IsLossy ds
  IsLossy-rest_of [] l = l
  IsLossy-rest_of (e ∷ rest) (f, o, n) = (f, there o, n)

module _ {Db A B : Type 0} (P : Result Error B → Type 0) (f : Op Fault Db A)
    (k : A → Op Error (World Db) B) where
  abbrev step : Result Error A × World Db → Result Error B
  step x = (continue x.0 k x.1).0

  on_answer :
      (rest : List (Delivery Db)) (x : Result Fault A × Db)
      → ((a : A) → x.0 ≡ ok a → P (k a (record { db = x.1; deliveries = rest })).0)
      → (x.0 ≡ err fault → P (err unavailable))
      → P (step (answered rest x))
  on_answer rest (ok a, d) answers faults = answers a refl
  on_answer rest (err fault, d) answers faults = faults refl

  on_fate :
      (rest : List (Delivery Db)) (fate : Fate) (d : Db)
      → ((a : A) → (f d).0 ≡ ok a → P (k a (record { db = (f d).1; deliveries = rest })).0)
      → ((f d).0 ≡ err fault → P (err unavailable))
      → (fate ≢ arrives → P (err unavailable))
      → P (step (delivered fate rest f d))
  on_fate rest arrives d answers faults lost = on_answer rest (f d) answers faults
  on_fate rest request_lost d answers faults lost = lost (λ e. cc)
  on_fate rest reply_lost d answers faults lost = lost (λ e. cc)

  -- Whatever holds after every answer, after a script's error and after a loss, holds of the whole.
  pub call_rule :
      (w : World Db)
      → ((a : A) → (f (arrival w)).0 ≡ ok a → P (k a (next w (f (arrival w)).1)).0)
      → ((f (arrival w)).0 ≡ err fault → P (err unavailable))
      → (IsLossy w.deliveries → P (err unavailable))
      → P ((call f >>= k) w).0
  unfolding call
  call_rule w = go w.deliveries
    where
      go :
          (ds : List (Delivery Db))
          → ((a : A)
              → (f (arrival_in ds w.db)).0 ≡ ok a
              → P (k a (record { db = (f (arrival_in ds w.db)).1; deliveries = rest_of ds })).0)
          → ((f (arrival_in ds w.db)).0 ≡ err fault → P (err unavailable))
          → (IsLossy ds → P (err unavailable))
          → P ((call f >>= k) (record w { deliveries = ds })).0
      go [] answers faults lost = on_answer [] (f w.db) answers faults
      go (e ∷ rest) answers faults lost =
          on_fate rest e.fate (e.meanwhile w.db) answers faults (λ n. lost (e, here, n))
