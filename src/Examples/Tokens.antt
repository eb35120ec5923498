-- ===== src/Examples/Tokens.antt =====
-- A toy of what app/core/security.py takes from its libraries, to run the examples with: a password is
-- its own hash, and a token spells out its payload.
use Prim.Native.String.{[] as empty, ◌∷◌ as push}
use booking_api_service.Common.{
  ℕ, zero, suc, ◌≡◌, refl, ap, String, Option, none, some, Bool, ltb, str_eq, str_eq_iff,
  if◌then◌else◌,
}
use booking_api_service.Model.{UserRole, user, admin}
use booking_api_service.Auth.{Claims, Crypto}

-- A number as so many letters "a" before a "b".
abbrev spell : ℕ → String → String
spell zero rest = push "b" rest
spell (suc n) rest = push "a" (spell n rest)

abbrev count_up : Bool → ℕ × String → String → ℕ × String
count_up b (n, rest) s = if b then (suc n, rest) else (0, s)

abbrev read : String → ℕ × String
read empty = (0, empty)
read (push c s) = count_up (str_eq (push c empty) "a") (read s) s

pub read-spell : (n : ℕ) (rest : String) → read (spell n rest) ≡ (n, rest)
read-spell zero rest = refl
read-spell (suc n) rest = rw (read-spell n rest) refl

abbrev sub_code : Option ℕ → ℕ
sub_code none = 0
sub_code (some n) = suc n

abbrev sub_of : ℕ → Option ℕ
sub_of zero = none
sub_of (suc n) = some n

abbrev role_code : UserRole → ℕ
role_code user = 0
role_code admin = 1

abbrev role_of : ℕ → UserRole
role_of zero = user
role_of (suc n) = admin

abbrev write_token : Claims → String
write_token c = spell (sub_code c.sub) (spell (role_code c.role) (spell c.exp c.email))

abbrev read_token : String → Claims
read_token t =
    let first = read t in
    let second = read first.1 in
    let third = read second.1 in
    record { sub = sub_of first.0; email = third.1; role = role_of second.0; exp = third.0 }

abbrev accept : ℕ → Claims → Option Claims
accept now c = if ltb now c.exp then some c else none

sub_code-inverse : (o : Option ℕ) → sub_of (sub_code o) ≡ o
sub_code-inverse none = refl
sub_code-inverse (some n) = refl

role_code-inverse : (r : UserRole) → role_of (role_code r) ≡ r
role_code-inverse user = refl
role_code-inverse admin = refl

pub read-write_token : (c : Claims) → read_token (write_token c) ≡ c
read-write_token c =
    rw (read-spell (sub_code c.sub) (spell (role_code c.role) (spell c.exp c.email))) (
      rw (read-spell (role_code c.role) (spell c.exp c.email)) (
        rw (read-spell c.exp c.email)
          (rw (sub_code-inverse c.sub) (rw (role_code-inverse c.role) refl))))

abbrev pub toy_crypto : Crypto
toy_crypto = record {
  hash = λ password. password;
  verify = str_eq;
  encode = write_token;
  decode = λ now t. accept now (read_token t);
  verify-hash = λ password. (str_eq_iff password password).1 refl;
  decode-encode = λ now c. ap (accept now) (read-write_token c);
}
