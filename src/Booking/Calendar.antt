-- ===== src/Booking/Calendar.antt =====
-- What the booking service promises, without its tables: a calendar of who holds which seat of
-- which hall at which instant, that bookings fill and cancellations clear.
pub mod Held
pub mod Refines
use booking_api_service.Common.{
  ℕ, List, [], ◌∷◌, ◌≡◌, ◌≢◌, ◌≤◌, ◌<◌, ◌↔◌, ◌⊎◌, inl, inr, true, contains, ◌∙◌, sym, subst, String,
}
use booking_api_service.Datetime.{instant}
use booking_api_service.Session.{Database}
use booking_api_service.Kafka.{Broker}
use booking_api_service.Schemas.{BookingCreate}
use booking_api_service.Booking.History.{Call, create, cancel}

-- `c hall seat time id`: the booking `id` holds the seat of the hall at that instant.
abbrev pub Calendar : Type 1
Calendar = ℕ → ℕ → ℕ → ℕ → Type 0

-- What a booking fills: its seats from its start up to, and without, its end.
pub record IsCell (hall : ℕ) (seats : List ℕ) (from to id : ℕ) (h seat time i : ℕ) : Type 0 where
  pub same_id : i ≡ id
  pub same_hall : h ≡ hall
  pub is_seat : contains seat seats ≡ true
  pub from_start : from ≤ time
  pub before_end : time < to

-- The cells of a new booking were nobody's, and are now its own; nothing else changes.
pub record Reserved (c d : Calendar) (hall : ℕ) (seats : List ℕ) (from to id : ℕ) : Type 0 where
  pub was_free :
      (seat time i : ℕ)
      → contains seat seats ≡ true
      → from ≤ time
      → time < to
      → ¬ c hall seat time i
  pub was_unknown : (h seat time : ℕ) → ¬ c h seat time id
  pub filled :
      (h seat time i : ℕ)
      → d h seat time i ↔ (c h seat time i ⊎ IsCell hall seats from to id h seat time i)

-- All cells of a booking are cleared, and no others.
abbrev pub Released : Calendar → Calendar → ℕ → Type 0
Released c d id = (h seat time i : ℕ) → d h seat time i ↔ (c h seat time i × (i ≢ id))

abbrev pub Same : Calendar → Calendar → Type 0
Same c d = (h seat time i : ℕ) → d h seat time i ↔ c h seat time i

-- What a call may do to the calendar: nothing, or what it is asked for.
pub data Answers : Call → Calendar → Calendar → Type 1 where
  refused : {call : Call} {c d : Calendar} → Same c d → Answers call c d
  reserved :
      {D : Database} {broker : Broker} {token : String} {user_id : ℕ} {rq : BookingCreate}
      {c d : Calendar} (id : ℕ)
      → Reserved c d rq.hall_id rq.seat_ids (instant rq.start_time) (instant rq.end_time) id
      → Answers (create D broker token user_id rq) c d
  released :
      {broker : Broker} {booking_id user_id : ℕ} {c d : Calendar}
      → Released c d booking_id
      → Answers (cancel broker booking_id user_id) c d

-- The calls are answered one after another.
pub data Follows : List Call → Calendar → Calendar → Type 1 where
  done : {c : Calendar} → Follows [] c c
  next :
      {call : Call} {calls : List Call} {c d e : Calendar}
      → Answers call c d
      → Follows calls d e
      → Follows (call ∷ calls) c e

-- Nobody shares a seat: at an instant it has one holder at most.
abbrev pub IsExclusive : Calendar → Type 0
IsExclusive c = (h seat time i j : ℕ) → c h seat time i → c h seat time j → i ≡ j

Answers-IsExclusive :
    {call : Call} {c d : Calendar} → Answers call c d → IsExclusive c → IsExclusive d
Answers-IsExclusive (refused same) e h seat time i j x y =
    e h seat time i j ((same h seat time i).0 x) ((same h seat time j).0 y)
Answers-IsExclusive (released r) e h seat time i j x y =
    e h seat time i j ((r h seat time i).0 x).0 ((r h seat time j).0 y).0
Answers-IsExclusive {c = c} (reserved {rq = rq} id r) e h seat time i j x y =
    elim ((r.filled h seat time i).0 x) [
      | inl p ↦ elim ((r.filled h seat time j).0 y) [
        | inl q ↦ e h seat time i j p q
        | inr z ↦ absurd (taken z p)
      ]
      | inr z ↦ elim ((r.filled h seat time j).0 y) [
        | inl q ↦ absurd (taken z q)
        | inr o ↦ z.same_id ∙ sym o.same_id
      ]
    ]
  where
    taken :
        {k l : ℕ}
        → IsCell rq.hall_id rq.seat_ids
            (instant rq.start_time)
            (instant rq.end_time)
            id
            h
            seat
            time
            k
        → c h seat time l
        → ⊥
    taken {l = l} z p =
        r.was_free seat time l z.is_seat z.from_start z.before_end
          (subst (λ g. c g seat time l) z.same_hall p)

-- A calendar without shared seats stays so, whatever is asked.
pub Follows-IsExclusive :
    {calls : List Call} {c d : Calendar} → Follows calls c d → IsExclusive c → IsExclusive d
Follows-IsExclusive done e = e
Follows-IsExclusive (next a f) e = Follows-IsExclusive f (Answers-IsExclusive a e)
