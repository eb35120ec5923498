-- ===== src/Redis.antt =====
-- What the code relies on of the Redis server (app/redis.py opens the connection to it): an
-- interface with the documented laws of GET, SET, SET NX and DEL, and a store that meets it.
-- A key is kept as the parts that its f-string prints, and a cached list as its value, since
-- `json.loads` gives back what `json.dumps` was given.
pub mod Lock
use booking_api_service.Common.{
  ℕ, String, List, Option, none, some, Bool, true, false, ◌≡◌, ◌↔◌, refl, arith, ◌&&◌, ◌==◌,
  if◌then◌else◌,
}
use booking_api_service.Schemas.{TimeSlotResponse}

-- `lock:hall:{hall_id}:{date}:{hour}` and `slots:hall:{hall_id}:{date}`
pub data Key : Type 0 where
  lock : (hall_id date hour : ℕ) → Key
  slots : (hall_id date : ℕ) → Key

pub data Value : Type 0 where
  token : String → Value
  json : List TimeSlotResponse → Value

abbrev pub key_eq : Key → Key → Bool
key_eq (lock h d n) (lock i e m) = h == i && d == e && n == m
key_eq (slots h d) (slots i e) = h == i && d == e
key_eq (lock h d n) (slots i e) = false
key_eq (slots h d) (lock i e m) = false

pub key_eq_iff : (j k : Key) → (key_eq j k ≡ true) ↔ (j ≡ k)
key_eq_iff (lock h d n) (lock i e m) = ground arith
key_eq_iff (slots h d) (slots i e) = ground arith
key_eq_iff (lock h d n) (slots i e) = ground arith
key_eq_iff (slots h d) (lock i e m) = ground arith

pub record Redis : Type 1 where
  pub Store : Type 0
  pub get : Store → Key → Option Value
  -- The last argument is the time to live.
  pub set : Store → Key → Value → ℕ → Store
  pub set_nx : Store → Key → Value → ℕ → Store × Bool
  pub del : Store → Key → Store
  pub get-set :
      (s : Store) (k j : Key) (v : Value) (ttl : ℕ)
      → get (set s k v ttl) j ≡ (if key_eq k j then some v else get s j)
  pub get-del : (s : Store) (k j : Key) → get (del s k) j ≡ (if key_eq k j then none else get s j)
  pub set_nx_absent :
      (s : Store) (k : Key) (v : Value) (ttl : ℕ)
      → get s k ≡ none
      → set_nx s k v ttl ≡ (set s k v ttl, true)
  pub set_nx_present :
      (s : Store) (k : Key) (v w : Value) (ttl : ℕ)
      → get s k ≡ some w
      → set_nx s k v ttl ≡ (s, false)

pub key_eq_refl : (k : Key) → key_eq k k ≡ true
key_eq_refl k = (key_eq_iff k k).1 refl

-- A store that is read through a function.
abbrev pub Table : Type 0
Table = Key → Option Value

abbrev pub write : Table → Key → Option Value → Table
write s k o j = if key_eq k j then o else s j

abbrev pub put_nx : Option Value → Table → Key → Value → Table × Bool
put_nx none s k v = (write s k (some v), true)
put_nx (some w) s k v = (s, false)

pub put_nx_absent :
    (o : Option Value) (s : Table) (k : Key) (v : Value)
    → o ≡ none
    → put_nx o s k v ≡ (write s k (some v), true)
put_nx_absent none s k v h = refl
put_nx_absent (some w) s k v h = cc

pub put_nx_present :
    (o : Option Value) (s : Table) (k : Key) (v w : Value)
    → o ≡ some w
    → put_nx o s k v ≡ (s, false)
put_nx_present none s k v w h = cc
put_nx_present (some x) s k v w h = refl

abbrev pub table_redis : Redis
table_redis = record {
  Store = Table;
  get = λ s k. s k;
  set = λ s k v ttl. write s k (some v);
  set_nx = λ s k v ttl. put_nx (s k) s k v;
  del = λ s k. write s k none;
  get-set = λ s k j v ttl. refl;
  get-del = λ s k j. refl;
  set_nx_absent = λ s k v ttl h. put_nx_absent (s k) s k v h;
  set_nx_present = λ s k v w ttl h. put_nx_present (s k) s k v w h;
}
