-- ===== src/App/Lifespan/Closes.antt =====
-- When the application starts, and that it leaves no connection open when it stops.
use booking_api_service.Common.{
  ℕ, zero, suc, ltb, Bool-cases, ◌+◌, ◌-◌, ◌<◌, ◌≡◌, refl, ap, ◌∙◌, ◌↔◌, inl, inr, some, Bool, true,
  [], ◌∷◌, ◌++◌, range_from, arith,
}
use mathlib.Core.List.{append_assoc}
use booking_api_service.Exceptions.{Error, Result, ok}
use booking_api_service.Exceptions.Results.{Result-cases}
use booking_api_service.Action.{◌>>◌}
use booking_api_service.Kafka.Connect.{
  Start, broken, connected, refused, Client, close_kafka, max_retries,
}
use booking_api_service.Kafka.Retries.{
  IsTried, IsOutcome, connects, breaks, gives_up, init_kafka-IsOutcome,
}
use booking_api_service.App.Lifespan.{
  Process, create_tables, startup, shutdown, close_redis, init_redis, lifespan,
}

range_from-snoc : (m k : ℕ) → range_from m k ++ (m + k) ∷ [] ≡ range_from m (suc k)
range_from-snoc m zero = let e : m + 0 ≡ m = omega arith in ap (λ n. n ∷ []) e
range_from-snoc m (suc k) =
    let e : m + suc k ≡ suc m + k = omega arith in
    ap (λ n. m ∷ (range_from (suc m) k ++ n ∷ [])) e ∙ ap (λ ns. m ∷ ns) (range_from-snoc (suc m) k)

-- What the requests leave of the connections: they use those that there are.
pub record KeepsConnections (served : Process → Process) : Type 0 where
  pub redis : (q : Process) → (served q).redis ≡ q.redis
  pub producer : (q : Process) → (served q).kafka.kafka_producer ≡ q.kafka.kafka_producer
  pub made : (q : Process) → (served q).kafka.made ≡ q.kafka.made
  pub stopped : (q : Process) → (served q).kafka.stopped ≡ q.kafka.stopped

-- The producers and clients made since, all of which are stopped or closed.
pub record IsClosed (p q : Process) : Type 0 where
  pub producers :
      q.kafka.stopped ≡ p.kafka.stopped ++ range_from p.kafka.made (q.kafka.made - p.kafka.made)
  pub clients : q.redis.closed ≡ p.redis.closed ++ p.redis.made ∷ []
  pub one_client : q.redis.made ≡ suc p.redis.made

module _ (starts : ℕ → Start) (created : Result (Unit {0})) (served : Process → Process)
    (p : Process) where
  -- One of the first ten producers connects, those before it are refused.
  abbrev pub Connects : Type 0
  Connects =
      (k : ℕ) × (k < max_retries)
      × ((i : ℕ) → i < k → starts (p.kafka.made + i) ≡ refused)
      × (starts (p.kafka.made + k) ≡ connected)

  abbrev opened : Client → Process
  opened t = record p {
    redis = record p.redis { redis_client = some p.redis.made; made = suc p.redis.made };
    kafka = t;
  }

  -- What follows the connection to Kafka.
  abbrev finish : Result ℕ → Client → Result (Unit {0}) × Process
  finish r t =
      (((λ _. (r, opened t)) >> create_tables created) >> λ q. (ok tt, shutdown (served q))) p

  Ends : Result ℕ → Client → Type 0
  Ends r t =
      let (x, q) = finish r t in
      ((x ≡ ok tt) ↔ (Connects × (created ≡ ok tt))) × (x ≡ ok tt → IsClosed p q)

  module _ (keeps : KeepsConnections served) where
    closes :
        (k : ℕ) (t : Client) (b : Bool)
        → IsTried starts k p.kafka t
        → t.kafka_producer ≡ some (p.kafka.made + k)
        → t.made ≡ p.kafka.made + k + 1
        → IsClosed p (shutdown (served (record (opened t) { has_tables = b })))
    unfolding shutdown close_kafka close_redis
    closes k t b tried producer made =
        let q = record (opened t) { has_tables = b } in
        let count : (served q).kafka.made - p.kafka.made ≡ suc k = omega (arith, keeps.made q) in
        record {
          producers =
              rw (count, keeps.producer q, keeps.stopped q, producer)
                (ap (λ xs. xs ++ (p.kafka.made + k) ∷ []) tried.each_stopped
                  ∙ append_assoc p.kafka.stopped _ _
                  ∙ ap (λ xs. p.kafka.stopped ++ xs) (range_from-snoc p.kafka.made k));
          clients = rw (keeps.redis q) refl;
          one_client = rw (keeps.redis q) refl;
        }

    -- No producer connects where one fails in another way after those that were refused.
    not_broken :
        (k : ℕ) (e : Error)
        → ((i : ℕ) → i < k → starts (p.kafka.made + i) ≡ refused)
        → starts (p.kafka.made + k) ≡ broken e
        → ¬ Connects
    not_broken k e before b (j, h, earlier, c) = elim (Bool-cases (ltb j k)) [
      | inl l ↦ let r = before j (ground arith) in cc (r, c)
      | inr l ↦ elim (Bool-cases (ltb k j)) [
        | inl m ↦ let r = earlier k (ground arith) in cc (r, b)
        | inr m ↦
            let same : j ≡ k = ground arith in
            let d = ap (λ i. starts (p.kafka.made + i)) same in cc (b, c, d)
      ]
    ]

    finish-Ends : (r : Result ℕ) (t : Client) → IsOutcome starts max_retries p.kafka r t → Ends r t
    unfolding Ends
    finish-Ends r t (breaks k e h tried b f made) = rw f (
      (λ x. ground arith, λ (c, d). absurd (not_broken k e tried.all_refused b c)),
      λ x. ground arith,
    )
    finish-Ends r t (gives_up tried f producer made) = rw f (
      (
        λ x. ground arith,
        λ ((k, h, before, c), d). let r = tried.all_refused k h in absurd (cc (r, c)),
      ),
      λ x. ground arith,
    )
    finish-Ends r t (connects k h tried c f producer made) = rw f (elim (Result-cases created) [
      | inl (u, d) ↦ rw d (
        (λ x. ((k, h, tried.all_refused, c), refl), λ x. refl),
        λ x. closes k t true tried producer made,
      )
      | inr (e, d) ↦ rw d ((λ x. ground arith, λ x. ground arith), λ x. ground arith)
    ])

    -- The application starts exactly if one of the first ten producers connects, those before it
    -- being refused, and the tables are created. When it has started and then stops, every producer
    -- that it made is stopped, and its one Redis client is closed. The requests meanwhile use the
    -- connections that there are, and make none.
    pub lifespan-IsClosed :
        let (x, q) = lifespan starts created served p in
        ((x ≡ ok tt) ↔ (Connects × (created ≡ ok tt))) × (x ≡ ok tt → IsClosed p q)
    unfolding lifespan startup init_redis Ends
    lifespan-IsClosed = finish-Ends _ _ (init_kafka-IsOutcome starts p.kafka)
