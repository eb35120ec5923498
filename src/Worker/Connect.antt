-- ===== src/Worker/Connect.antt =====
-- `wait_for_kafka` and the frame of `run_worker` of app/worker.py.
use booking_api_service.Common.{
  ◌==◌, ==_iff, ==_false, ℕ, zero, suc, ◌+◌, ◌-◌, ◌*◌, ◌≤◌, ◌<◌, ◌≡◌, refl, ap, sym, ◌∙◌, ◌⊎◌, inl,
  inr, List, ◌++◌, map, select, Bool, true, false, ltb, if◌then◌else◌, arith, Bool-cases,
}
use booking_api_service.Exceptions.{Error, Result, ok, err, text, runtime_error}
use booking_api_service.Action.{Action}
use booking_api_service.Kafka.{Event}
use booking_api_service.Worker.{Email, Smtp, run_worker}
use booking_api_service.Worker.Delivery.{letter, is_delivered, run_worker-letters}

abbrev pub max_retries : ℕ
max_retries = 10

abbrev pub retry_delay : ℕ
retry_delay = 5

-- The consumer, and how long the code has slept for it.
pub record Consumer : Type 0 where
  pub started : Bool
  pub stopped : Bool
  pub slept : ℕ

abbrev pub stop : Consumer → Consumer
stop c = record c { stopped = true }

abbrev pub not_connected : Error
not_connected = runtime_error (text "Failed to connect to Kafka after maximum retries")

-- `starts attempt`: the attempt of that number raises nothing.
module _ (starts : ℕ → Bool) where
  -- The attempts that are left, from `attempt` on.
  unfoldable pub wait_from : ℕ → ℕ → Action Consumer (Unit {0})
  wait_from zero attempt c = (err (runtime_error (text "Should not reach here")), c)
  wait_from (suc left) attempt c =
      let again = wait_from left (suc attempt) (record c { slept = c.slept + retry_delay }) in
      if starts attempt
      then (ok tt, record c { started = true })
      else (if ltb attempt max_retries then again else (err not_connected, stop c))

  unfoldable pub wait_for_kafka : Action Consumer (Unit {0})
  unfolding wait_from
  wait_for_kafka = wait_from max_retries 1

  -- What follows the connection: the messages, and `finally` the stop of the consumer.
  unfoldable pub consume :
      Smtp
      → List Event
      → Result (Unit {0})
      → Consumer
      → List Email
      → Result (Unit {0}) × Consumer × List Email
  consume M events (err e) c sent = (err e, c, sent)
  consume M events (ok u) c sent = (ok u, stop c, run_worker M events sent)

  -- `run_worker`, for the messages that come until it is stopped.
  unfoldable pub run_worker_once :
      Smtp → List Event → Consumer → List Email → Result (Unit {0}) × Consumer × List Email
  unfolding wait_for_kafka consume
  run_worker_once M events c sent = let (r, c') = wait_for_kafka c in consume M events r c' sent

  -- How the attempts from `attempt` on can end.
  pub data IsWaited (attempt : ℕ) (c : Consumer) (r : Result (Unit {0})) (d : Consumer)
      : Type 0 where
    connects :
        (k : ℕ)
        → attempt ≤ k
        → k ≤ max_retries
        → ((i : ℕ) → attempt ≤ i → i < k → starts i ≡ false)
        → starts k ≡ true
        → r ≡ ok tt
        → d ≡ record c { started = true; slept = c.slept + (k - attempt) * retry_delay }
        → IsWaited attempt c r d
    gives_up :
        ((i : ℕ) → attempt ≤ i → i ≤ max_retries → starts i ≡ false)
        → r ≡ err not_connected
        → d ≡ record c { stopped = true; slept = c.slept + (max_retries - attempt) * retry_delay }
        → IsWaited attempt c r d

  slept_more :
      (c : Consumer) (s s' : ℕ) (b d : Bool)
      → s ≡ s'
      → record c { started = b; stopped = d; slept = s }
        ≡ record c { started = b; stopped = d; slept = s' }
  slept_more c s s' b d e = ap (λ z. record c { started = b; stopped = d; slept = z }) e

  first_fails :
      (attempt last : ℕ)
      → starts attempt ≡ false
      → ((i : ℕ) → suc attempt ≤ i → i < last → starts i ≡ false)
      → (i : ℕ) → attempt ≤ i
      → i < last
      → starts i ≡ false
  first_fails attempt last f rest i h k = elim (Bool-cases (attempt == i)) [
    | inl e ↦ ap starts (sym ((==_iff attempt i).0 e)) ∙ f
    | inr e ↦ let ne = ==_false attempt i e in rest i (grind arith) k
  ]

  one_later :
      (attempt : ℕ) (c : Consumer) (r : Result (Unit {0})) (d : Consumer)
      → attempt < max_retries
      → starts attempt ≡ false
      → IsWaited (suc attempt) (record c { slept = c.slept + retry_delay }) r d
      → IsWaited attempt c r d
  one_later attempt c r d lt f (connects k h l before s e q) =
      connects k (omega arith) l (first_fails attempt k f before) s e
        (q ∙ slept_more c _ _ true c.stopped (omega arith))
  one_later attempt c r d lt f (gives_up all e q) =
      gives_up
        (λ i h l.
          first_fails attempt (suc max_retries) f (λ j a b. all j a (omega arith)) i h
            (omega arith))
        e (q ∙ slept_more c _ _ c.started true (omega arith))

  at_once :
      (attempt : ℕ) (c : Consumer)
      → attempt ≤ max_retries
      → starts attempt ≡ true
      → IsWaited attempt c (ok tt) (record c { started = true })
  at_once attempt c h s =
      connects attempt (omega arith) h (λ i a b. absurd (omega arith)) s refl
        (slept_more c _ _ true c.stopped (omega arith))

  wait_from-IsWaited :
      (left attempt : ℕ) (c : Consumer)
      → suc left + attempt ≡ suc max_retries
      → let (r, d) = wait_from (suc left) attempt c in IsWaited attempt c r d
  unfolding wait_from
  wait_from-IsWaited zero attempt c e = elim (Bool-cases (starts attempt)) [
    | inl s ↦ rw s (at_once attempt c (omega arith) s)
    | inr s ↦
        let past : ltb attempt max_retries ≡ false = ground arith in
        rw s (
          rw past (
            gives_up (λ i h l. let q : i ≡ attempt = omega arith in ap starts q ∙ s) refl
              (slept_more c _ _ c.started true (omega arith))))
  ]
  wait_from-IsWaited (suc left) attempt c e = elim (Bool-cases (starts attempt)) [
    | inl s ↦ rw s (at_once attempt c (omega arith) s)
    | inr s ↦
        let more : ltb attempt max_retries ≡ true = ground arith in
        rw s (
          rw more (
            one_later attempt c _ _ (omega arith) s (
              wait_from-IsWaited left (suc attempt) (record c { slept = c.slept + retry_delay })
                (omega arith))))
  ]

  consume-ends :
      (M : Smtp) (events : List Event) (c : Consumer) (sent : List Email) (r₀ : Result (Unit {0}))
      (d₀ : Consumer)
      → IsWaited 1 c r₀ d₀
      → let (r, d, sent') = consume M events r₀ d₀ sent in
        (d.stopped ≡ true)
        × (((k : ℕ) × (1 ≤ k)
              × (k ≤ max_retries)
              × (starts k ≡ true)
              × (r ≡ ok tt)
              × (d.slept ≡ c.slept + (k - 1) * retry_delay)
              × (sent' ≡ sent ++ select (is_delivered M) (map (letter M) events)))
            ⊎ (((i : ℕ) → 1 ≤ i → i ≤ max_retries → starts i ≡ false)
                × (r ≡ err not_connected)
                × (d.slept ≡ c.slept + 45)
                × (sent' ≡ sent)))
  unfolding consume
  consume-ends M events c sent r₀ d₀ (connects k h l before s e q) =
      rw e (rw q (refl, inl (k, h, l, s, refl, refl, run_worker-letters M events sent)))
  consume-ends M events c sent r₀ d₀ (gives_up all e q) =
      rw e (rw q (refl, inr (all, refl, omega arith, refl)))

  -- The worker always gets past `wait_for_kafka`, after at most ten attempts: if attempt `k` is the
  -- first that succeeds, it has slept five seconds after each earlier one, sends the e-mails for the
  -- messages that come, and stops the consumer; if all ten fail, it has slept nine times, stops the
  -- consumer, raises, and sends nothing.
  pub run_worker_once-ends :
      (M : Smtp) (events : List Event) (c : Consumer) (sent : List Email)
      → let (r, d, sent') = run_worker_once M events c sent in
        (d.stopped ≡ true)
        × (((k : ℕ) × (1 ≤ k)
              × (k ≤ max_retries)
              × (starts k ≡ true)
              × (r ≡ ok tt)
              × (d.slept ≡ c.slept + (k - 1) * retry_delay)
              × (sent' ≡ sent ++ select (is_delivered M) (map (letter M) events)))
            ⊎ (((i : ℕ) → 1 ≤ i → i ≤ max_retries → starts i ≡ false)
                × (r ≡ err not_connected)
                × (d.slept ≡ c.slept + 45)
                × (sent' ≡ sent)))
  unfolding run_worker_once wait_for_kafka
  run_worker_once-ends M events c sent =
      consume-ends M events c sent _ _ (wait_from-IsWaited 9 1 c refl)
