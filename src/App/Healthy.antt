-- ===== src/App/Healthy.antt =====
-- When app/main.py says that the service is healthy.
use booking_api_service.Common.{
  ◌≤◌, ◌<◌, ◌≡◌, refl, ◌↔◌, ◌⊎◌, inl, inr, Option, none, some, Bool, true, false, leb, arith,
  Bool-cases, String, str_eq, str_eq_iff, if◌then◌else◌,
}
use booking_api_service.App.{
  Ending, Awaited, returned, timeout_error, other_exception, within_timeout, health_timeout,
  health_check, ended, check_database, check_redis, check_kafka,
}

-- The call answers `a` within the five seconds.
pub record Answers {A : Type 0} (call : Awaited A) (a : A) : Type 0 where
  pub in_time : call.duration ≤ health_timeout
  pub answer : call.ending ≡ returned a

-- The call is cancelled after the five seconds or raises a `TimeoutError` before.
abbrev pub TimesOut : {A : Type 0} → Awaited A → Type 0
TimesOut call = (health_timeout < call.duration) ⊎ (call.ending ≡ timeout_error)

within_timeout_iff :
    {A : Type 0} (call : Awaited A) (a : A) → (within_timeout call ≡ returned a) ↔ Answers call a
unfolding within_timeout
within_timeout_iff call a = elim (Bool-cases (leb call.duration health_timeout)) [
  | inl e ↦ (λ p. record { in_time = ground arith; answer = rw e at p }, λ h. rw (e, h.answer) refl)
  | inr e ↦ (λ p. ground arith, λ h. let l = h.in_time in ground arith)
]

within_timeout_error_iff :
    {A : Type 0} (call : Awaited A) → (within_timeout call ≡ timeout_error) ↔ TimesOut call
unfolding within_timeout
within_timeout_error_iff call = elim (Bool-cases (leb call.duration health_timeout)) [
  | inl e ↦ (λ p. inr (rw e at p), λ h. elim h [ inl l ↦ ground arith | inr q ↦ rw (e, q) refl ])
  | inr e ↦ (λ p. inl (ground arith), λ h. rw e refl)
]

database_iff : (a : Ending (Unit {0})) → (str_eq (check_database a) "ok" ≡ true) ↔ (a ≡ returned tt)
database_iff (returned u) = (λ p. refl, λ p. refl)
database_iff timeout_error = (λ p. ground arith, λ p. ground arith)
database_iff other_exception = (λ p. ground arith, λ p. ground arith)

redis_iff : (a : Ending Bool) → (str_eq (check_redis a) "ok" ≡ true) ↔ (a ≡ returned true)
redis_iff (returned true) = (λ p. refl, λ p. refl)
redis_iff (returned false) = (λ p. ground arith, λ p. ground arith)
redis_iff timeout_error = (λ p. ground arith, λ p. ground arith)
redis_iff other_exception = (λ p. ground arith, λ p. ground arith)

ending_cases :
    (a : Ending (Unit {0})) → (a ≡ timeout_error) ⊎ (str_eq (check_kafka (some a)) "ok" ≡ true)
ending_cases (returned u) = inr refl
ending_cases timeout_error = inl refl
ending_cases other_exception = inr refl

kafka_iff :
    (o : Option (Awaited (Unit {0})))
    → (str_eq (check_kafka (ended o)) "ok" ≡ true)
      ↔ ((call : Awaited (Unit {0})) → o ≡ some call → ¬ TimesOut call)
unfolding ended
kafka_iff none = (λ p call e. ground arith, λ h. refl)
kafka_iff (some call) = elim (ending_cases (within_timeout call)) [
  | inl e ↦ (
    λ p c q t.
        let shown : str_eq (check_kafka (some (within_timeout call))) "ok" ≡ true = p in
        let f : str_eq "timeout" "ok" ≡ true = rw e at shown in ground arith,
    λ h. absurd (h call refl ((within_timeout_error_iff call).0 e)),
  )
  | inr e ↦ (
    λ p c q t.
        let late = (within_timeout_error_iff c).1 t in
        let w : within_timeout call ≡ timeout_error = cc in
        let f : str_eq "timeout" "ok" ≡ true = rw w at e in ground arith,
    λ h. e,
  )
]

status_iff :
    (b : Bool) → (◌≡◌ {A = String} (if b then "healthy" else "unhealthy") "healthy") ↔ (b ≡ true)
status_iff true = (λ p. refl, λ p. refl)
status_iff false = (
  λ p.
      let same : str_eq "unhealthy" "healthy" ≡ true = (str_eq_iff "unhealthy" "healthy").1 p in
      cc same,
  λ p. ground arith,
)

module _ (db : Awaited (Unit {0})) (redis : Awaited Bool)
    (producer : Option (Awaited (Unit {0}))) where
  -- What the health check asks of the services.
  pub record IsHealthy : Type 0 where
    pub database : Answers db tt
    pub ping : Answers redis true
    pub kafka : (call : Awaited (Unit {0})) → producer ≡ some call → ¬ TimesOut call

  -- The status is "healthy" exactly if the database answers and Redis answers the ping with true,
  -- both within five seconds, and the call of the Kafka producer, where there is one, does not run
  -- into the timeout: that it fails does not count.
  pub health_check-IsHealthy : ((health_check db redis producer).status ≡ "healthy") ↔ IsHealthy
  unfolding health_check
  health_check-IsHealthy = (
    λ p.
        let b = (status_iff _).0 p in
        record {
          database = (within_timeout_iff db tt).0 ((database_iff _).0 (ground arith));
          ping = (within_timeout_iff redis true).0 ((redis_iff _).0 (ground arith));
          kafka = (kafka_iff producer).0 ground arith;
        },
    λ h. (status_iff _).1 (
        rw
          (
            (database_iff _).1 ((within_timeout_iff db tt).1 h.database),
            (redis_iff _).1 ((within_timeout_iff redis true).1 h.ping),
            (kafka_iff producer).1 h.kafka,
          )
          refl),
  )
