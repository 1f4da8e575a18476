-- ===== src/Github/Url.antt =====
-- url.go: a pull request by its URL. What net/url makes of the trimmed text is the argument `Url`.
pub mod Laws
use j.Prelude.{
  ℕ, Bool, Text, codes, List, [], ◌∷◌, Option, none, some, Result, ok, err, is_empty, text_eq, atoi,
  Int64, split_on, trim_right, drop_while, ◌==◌, ◌||◌, ◌&&◌, not, if◌then◌else◌,
}

-- The parts of a url.URL that the source reads.
pub record Url : Type 0 where
  pub scheme : Text
  pub host : Text
  pub path : Text

pub record PrRef : Type 0 where
  pub host : Text
  pub owner : Text
  pub repo : Text
  pub number : ℕ

pub data UrlError : Type 0 where
  invalid_url unsupported_host : UrlError

abbrev pub public_host : Text
public_host = codes "github.com"

-- strings.Trim(s, "/")
unfoldable pub trim_slashes : Text → Text
trim_slashes s = trim_right (λ c. c == b'/') (drop_while (λ c. c == b'/') s)

is_positive : Int64 → Bool
is_positive i = not i.negative && not (i.magnitude == 0)

checked : Text → Text → Option Int64 → Option (Text × Text × ℕ)
unfolding is_positive
checked owner repo none = none
checked owner repo (some i) =
    if is_positive i
    then if is_empty owner || is_empty repo then none else some (owner, repo, i.magnitude)
    else none

-- The parts of the path; what stands behind the fourth one is not looked at.
parts_of : List Text → Option (Text × Text × ℕ)
unfolding checked
parts_of (owner ∷ repo ∷ kind ∷ number ∷ rest) =
    if text_eq kind (codes "pull") || text_eq kind (codes "pulls")
    then checked owner repo (atoi number)
    else none
parts_of _ = none

unfoldable pub split_pr_path : Text → Option (Text × Text × ℕ)
unfolding parts_of trim_slashes
split_pr_path path = parts_of (split_on b'/' (trim_slashes path))

ref_of : Text → Option (Text × Text × ℕ) → Result UrlError PrRef
ref_of host none = err invalid_url
ref_of host (some (owner, repo, n)) =
    ok (record { host = host; owner = owner; repo = repo; number = n })

-- ParseURL: `none` where url.Parse fails.
unfoldable pub parse_url : Option Url → Result UrlError PrRef
unfolding ref_of
parse_url none = err invalid_url
parse_url (some u) =
    if is_empty u.scheme || is_empty u.host
    then err invalid_url
    else if not (text_eq u.host public_host)
    then err unsupported_host
    else ref_of u.host (split_pr_path u.path)
