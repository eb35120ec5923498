-- ===== src/Kafka/Retries.antt =====
-- How the retries of `init_kafka` end, and what `send_booking_event` makes of them.
use booking_api_service.Common.{
  ◌⊎◌, ℕ, zero, suc, ◌+◌, ◌*◌, ◌<◌, ◌≡◌, ◌≢◌, ap, sym, refl, ◌∙◌, inl, inr, none, some, List, [],
  ◌∷◌, ◌++◌, Bool, true, false, ◌&&◌, ◌==◌, range_from, if◌then◌else◌, arith, Option-cases,
}
use mathlib.Core.List.{append-nil, append_assoc}
use booking_api_service.Exceptions.{Error, Result, ok, err, kafka_error}
use booking_api_service.Kafka.{Event, Broker, send_booking_event}
use booking_api_service.Action.{continue}
use booking_api_service.Kafka.Connect.{
  or_init, max_retries, retry_delay, Start, connected, refused, broken, Client, make, drop_producer,
  connect, init_kafka, get_kafka, send_and_wait, connect_and_send,
}

module _ (starts : ℕ → Start) where
  -- The first `k` producers were refused; each was stopped, and slept over.
  pub record IsTried (k : ℕ) (s t : Client) : Type 0 where
    pub all_refused : (i : ℕ) → i < k → starts (s.made + i) ≡ refused
    pub each_stopped : t.stopped ≡ s.stopped ++ range_from s.made k
    pub slept : t.slept ≡ s.slept + k * retry_delay
    pub topic : t.topic ≡ s.topic

  -- How at most `n` rounds can end.
  pub data IsOutcome (n : ℕ) (s : Client) (r : Result ℕ) (t : Client) : Type 0 where
    connects :
        (k : ℕ)
        → k < n
        → IsTried k s t
        → starts (s.made + k) ≡ connected
        → r ≡ ok (s.made + k)
        → t.kafka_producer ≡ some (s.made + k)
        → t.made ≡ s.made + k + 1
        → IsOutcome n s r t
    breaks :
        (k : ℕ) (e : Error)
        → k < n
        → IsTried k s t
        → starts (s.made + k) ≡ broken e
        → r ≡ err e
        → t.made ≡ s.made + k + 1
        → IsOutcome n s r t
    gives_up :
        IsTried n s t
        → r ≡ err kafka_error
        → t.kafka_producer ≡ (if n == 0 then s.kafka_producer else none)
        → t.made ≡ s.made + n
        → IsOutcome n s r t

  no_round :
      (s t : Client) → t.stopped ≡ s.stopped → t.slept ≡ s.slept → t.topic ≡ s.topic → IsTried 0 s t
  no_round s t e f g = record {
    all_refused = λ i h. absurd (omega arith);
    each_stopped = e ∙ sym (append-nil s.stopped);
    slept = omega arith;
    topic = g;
  }

  one_more : (m k : ℕ) → m + suc k ≡ suc m + k
  one_more m k = omega arith

  refused_from :
      (m k : ℕ)
      → starts m ≡ refused
      → ((i : ℕ) → i < k → starts (suc m + i) ≡ refused)
      → (i : ℕ) → i < suc k
      → starts (m + i) ≡ refused
  refused_from m k e rest zero h = let z : m + 0 ≡ m = omega arith in ap starts z ∙ e
  refused_from m k e rest (suc i) h = ap starts (one_more m i) ∙ rest i (omega arith)

  one_round_more :
      (k : ℕ) (s t : Client)
      → starts s.made ≡ refused
      → IsTried k (drop_producer s.made (make s)) t
      → IsTried (suc k) s t
  one_round_more k s t e r = record {
    all_refused = refused_from s.made k e r.all_refused;
    each_stopped =
        r.each_stopped ∙ append_assoc s.stopped (s.made ∷ []) (range_from (suc s.made) k);
    slept = omega (arith, r.slept);
    topic = r.topic;
  }

  later :
      (n : ℕ) (s : Client) (r : Result ℕ) (t : Client)
      → starts s.made ≡ refused
      → IsOutcome n (drop_producer s.made (make s)) r t
      → IsOutcome (suc n) s r t
  later n s r t e (connects k h tried c a p m) =
      let q = sym (one_more s.made k) in
      connects (suc k) (omega arith) (one_round_more k s t e tried) (ap starts (sym q) ∙ c)
        (a ∙ ap ok q) (p ∙ ap some q) (omega arith)
  later n s r t e (breaks k x h tried c a m) =
      breaks (suc k) x (omega arith) (one_round_more k s t e tried)
        (ap starts (one_more s.made k) ∙ c) a (omega arith)
  later n s r t e (gives_up tried a p m) =
      gives_up (one_round_more n s t e tried) a (ground arith) (omega arith)

  Start-cases : (x : Start) → (x ≡ connected) ⊎ ((x ≡ refused) ⊎ ((e : Error) × (x ≡ broken e)))
  Start-cases connected = inl refl
  Start-cases refused = inr (inl refl)
  Start-cases (broken e) = inr (inr (e, refl))

  connect-IsOutcome : (n : ℕ) (s : Client) → let (r, t) = connect starts n s in IsOutcome n s r t
  unfolding connect
  connect-IsOutcome zero s = gives_up (no_round s s refl refl refl) refl refl (omega arith)
  connect-IsOutcome (suc n) s =
      let first : s.made + 0 ≡ s.made = omega arith in
      elim (Start-cases (starts s.made)) [
        | inl e ↦
            rw (e, connect)
              (connects 0 (omega arith) (no_round s (make s) refl refl refl) (ap starts first ∙ e)
                (ap ok (sym first)) (ap some (sym first)) (omega arith))
        | inr (inl e) ↦
            rw (e, connect) (later n s _ _ e (connect-IsOutcome n (drop_producer s.made (make s))))
        | inr (inr (x, e)) ↦
            rw (e, connect)
              (breaks 0 x (omega arith) (no_round s (make s) refl refl refl) (ap starts first ∙ e)
                refl (omega arith))
      ]

  -- `init_kafka` always ends, after at most ten rounds. Either one of its producers connects, and is
  -- then the global one; or one fails in another way, and that error is raised; or all ten are
  -- refused, no producer is left, and the connection error is raised. The refused producers, each of
  -- which costs two seconds, come first, and all of them are stopped.
  pub init_kafka-IsOutcome :
      (s : Client) → let (r, t) = init_kafka starts s in IsOutcome max_retries s r t
  unfolding init_kafka
  init_kafka-IsOutcome s = connect-IsOutcome max_retries s

  abbrev pub is_ok : {A : Type 0} → Result A → Bool
  is_ok (ok a) = true
  is_ok (err e) = false

  sent :
      (broker : Broker) (event : Event) (topic : List Event) (x : Result ℕ) (t : Client)
      → t.topic ≡ topic
      → ((e : Error) → x ≡ err e → e ≡ kafka_error)
      → let (r, u) = continue x (λ p. send_and_wait starts broker event) t in
        (r, u.topic) ≡ send_booking_event (λ e. is_ok x && broker e) event topic
  unfolding send_and_wait send_booking_event
  sent broker event topic (ok p) t e only = rw (← e) refl
  sent broker event topic (err x) t e only = rw (← e) (ap (λ y. (err y, t.topic)) (only x refl))

  init_kafka_error :
      (s : Client)
      → ((i : ℕ) (e : Error) → starts i ≢ broken e)
      → ((init_kafka starts s).1.topic ≡ s.topic)
        × ((e : Error) → (init_kafka starts s).0 ≡ err e → e ≡ kafka_error)
  init_kafka_error s sound = elim (init_kafka-IsOutcome s) [
    | connects k h tried c a p m ↦ (tried.topic, λ x q. cc (a, q))
    | breaks k x h tried c a m ↦ absurd (sound (s.made + k) x c)
    | gives_up tried a p m ↦ (tried.topic, λ x q. cc (a, q))
  ]

  -- As long as no producer fails in another way than by being refused, sending an event with the
  -- connection that it may need first answers, and leaves the topic, as sending it to a broker that
  -- also refuses whatever the connection refuses.
  pub connect_and_send_refines :
      (broker : Broker) (event : Event) (s : Client)
      → ((i : ℕ) (e : Error) → starts i ≢ broken e)
      → let (r, t) = connect_and_send starts broker event s in
        (r, t.topic)
        ≡ send_booking_event (λ e. is_ok (get_kafka starts s).0 && broker e) event s.topic
  unfolding connect_and_send get_kafka
  connect_and_send_refines broker event s sound = elim (Option-cases s.kafka_producer) [
    | inr (p, e) ↦
        sent broker event s.topic (or_init starts s.kafka_producer s).0
          (or_init starts s.kafka_producer s).1 (rw e refl) (rw e (λ x q. cc))
    | inl e ↦
        let (topic, only) = init_kafka_error s sound in
        sent broker event s.topic (or_init starts s.kafka_producer s).0
          (or_init starts s.kafka_producer s).1 (ap (λ o. (or_init starts o s).1.topic) e ∙ topic)
          (λ x q. only x (sym (ap (λ o. (or_init starts o s).0) e) ∙ q))
  ]
