-- ===== src/Auth/Header.antt =====
-- `get_token_from_header` of app/core/dependencies.py.
use Prim.Native.String.{[] as empty, ◌∷◌ as push}
use booking_api_service.Common.{
  ℕ, zero, suc, String, Option, none, some, not, str_eq, starts_with, if◌then◌else◌,
}
use booking_api_service.Exceptions.{Result, ok, err, text, unauthorized}
use booking_api_service.Exceptions.Results.{◌>>◌, raise_if}

-- `text.replace("Bearer ", "")`: from the left, after the characters that a match still covers.
unfoldable pub remove_bearer : ℕ → String → String
remove_bearer covered empty = empty
remove_bearer (suc covered) (push c s) = remove_bearer covered s
remove_bearer zero (push c s) =
    let skipped = remove_bearer 6 s in
    let kept = push c (remove_bearer 0 s) in
    if starts_with (push c s) "Bearer " then skipped else kept

unfoldable pub get_token_from_header : Option String → Result String
unfolding remove_bearer
get_token_from_header none = err (unauthorized (text "Missing authorization header"))
get_token_from_header (some authorization) = do
  raise_if (str_eq authorization "") (unauthorized (text "Missing authorization header"))
  raise_if (not (starts_with authorization "Bearer "))
      (unauthorized (text "Invalid authorization header format"))
  let token = remove_bearer 0 authorization
  raise_if (str_eq token "") (unauthorized (text "Missing token"))
  ok token
