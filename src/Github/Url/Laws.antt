-- ===== src/Github/Url/Laws.antt =====
-- Which URLs are taken for a pull request.
use mathlib.Core.List.{append_assoc}
use j.Prelude.{
  ℕ, ◌≤◌, ◌<◌, ◌≡◌, ◌≢◌, ◌⊎◌, refl, sym, ap, ◌∙◌, true, false, Text, codes, List, [], ◌∷◌, ◌++◌,
  some, ok, text_eq, text_eq_sound, text_eq_refl, atoi, atoi-decimal, atoi_range, decimal,
  decimal-last, max_int, Int64, split_on, split_on-append, split_on_last, trim_right,
  trim_right-append, drop_while, IsDigit, decimal-IsDigit, All, ◌==◌, ◌||◌, inl, inr, Bool-cases,
  Option-cases, arith,
}
use j.Github.Url.{
  Url, PrRef, public_host, trim_slashes, is_positive, checked, parts_of, split_pr_path, ref_of,
  parse_url,
}

-- A pull request that can be asked for.
abbrev pub IsRef : PrRef → Type 0
IsRef r =
    (r.host ≡ public_host) × (r.owner ≢ []) × (r.repo ≢ []) × (0 < r.number) × (r.number ≤ max_int)

from_checked :
    (owner repo o r : Text) (n : ℕ) (i : Int64)
    → (i.negative ≡ false → i.magnitude ≤ max_int)
    → checked owner repo (some i) ≡ some (o, r, n)
    → (o ≢ []) × (r ≢ []) × (0 < n) × (n ≤ max_int)
unfolding checked is_positive
from_checked [] repo o r n i fits h = absurd (ground (arith, h))
from_checked (a ∷ owner) [] o r n i fits h = absurd (ground (arith, h))
from_checked (a ∷ owner) (b ∷ repo) o r n i fits h = ground (arith, h, fits)

checked_ok :
    (owner repo number o r : Text) (n : ℕ)
    → checked owner repo (atoi number) ≡ some (o, r, n)
    → (o ≢ []) × (r ≢ []) × (0 < n) × (n ≤ max_int)
unfolding checked is_positive
checked_ok owner repo number o r n h = elim (Option-cases (atoi number)) [
  | inl none_read ↦ absurd (ground (arith, h))
  | inr (i, e) ↦
      let read = rw e at h in
      let fits = atoi_range number i e in from_checked owner repo o r n i fits read
]

parts_ok :
    (parts : List Text) (o r : Text) (n : ℕ)
    → parts_of parts ≡ some (o, r, n)
    → (o ≢ []) × (r ≢ []) × (0 < n) × (n ≤ max_int)
unfolding parts_of
parts_ok [] o r n h = absurd (cc)
parts_ok (a ∷ []) o r n h = absurd (cc)
parts_ok (a ∷ b ∷ []) o r n h = absurd (cc)
parts_ok (a ∷ b ∷ c ∷ []) o r n h = absurd (cc)
parts_ok (a ∷ b ∷ c ∷ d ∷ rest) o r n h =
    elim (Bool-cases (text_eq c (codes "pull") || text_eq c (codes "pulls"))) [
      | inl y ↦ checked_ok a b d o r n (rw y at h)
      | inr other ↦ let none_there = rw other at h in absurd (cc)
    ]

-- A URL that ParseURL accepts has the one host that may see the user's token, and names an owner, a
-- repository and a positive number that an `int` holds.
pub parse_url_safe :
    (u : Url) (r : PrRef) → parse_url (some u) ≡ ok r → (u.host ≡ public_host) × IsRef r
unfolding parse_url
parse_url_safe u r h = elim (Option-cases (split_pr_path u.path)) [
  | inl none_there ↦ absurd (ground (arith, h, none_there))
  | inr ((o, p, n), e) ↦
      let named =
        parts_ok (split_on b'/' (trim_slashes u.path)) o p n (unfold split_pr_path in e) in
      ground (arith, h, e, named, text_eq_sound u.host public_host)
]

-- A part of a path: no slash in it.
abbrev pub IsPart : Text → Type 0
IsPart s = All (λ c. (c == b'/') ≡ false) s

IsPart-of_digit : (s : Text) → All IsDigit s → IsPart s
IsPart-of_digit [] h = tt
IsPart-of_digit (c ∷ s) h = (ground (arith, h.0), IsPart-of_digit s h.1)

-- The path that GitHub writes.
abbrev pub pull_path : Text → Text → Text → ℕ → Text
pull_path owner repo kind n = b'/' ∷ owner ++ b'/' ∷ (repo ++ b'/' ∷ (kind ++ b'/' ∷ decimal n))

trim_part :
    (c : ℕ) (front s : Text) (d : ℕ)
    → (c == b'/') ≡ false
    → (d == b'/') ≡ false
    → trim_slashes (b'/' ∷ c ∷ front ++ (s ++ d ∷ [])) ≡ c ∷ front ++ (s ++ d ∷ [])
unfolding trim_slashes drop_while
trim_part c front s d h k = rw h (
    ap (trim_right (λ e. e == b'/')) (sym (append_assoc (c ∷ front) s (d ∷ [])))
    ∙ trim_right-append (λ e. e == b'/') (c ∷ front ++ s) d k
    ∙ append_assoc (c ∷ front) s (d ∷ []))

-- A text ends in another character than a slash.
abbrev EndsInPart : Text → Type 0
EndsInPart t = (s : Text) × (d : ℕ) × (t ≡ s ++ d ∷ []) × ((d == b'/') ≡ false)

append-EndsInPart : (x t : Text) → EndsInPart t → EndsInPart (x ++ t)
append-EndsInPart x t (s, d, e, k) =
    (x ++ s, d, ap (λ u. x ++ u) e ∙ sym (append_assoc x s (d ∷ [])), k)

decimal-EndsInPart : (n : ℕ) → EndsInPart (decimal n)
decimal-EndsInPart n = let (s, d, e, digit) = decimal-last n in (s, d, e, ground (arith, digit))

trim_path :
    (c : ℕ) (owner t : Text)
    → (c == b'/') ≡ false
    → EndsInPart t
    → trim_slashes (b'/' ∷ c ∷ owner ++ t) ≡ c ∷ owner ++ t
trim_path c owner t h (s, d, e, k) = rw e (trim_part c owner s d h k)

split_parts :
    (owner repo kind number : Text)
    → IsPart owner
    → IsPart repo
    → IsPart kind
    → IsPart number
    → split_on b'/' (owner ++ b'/' ∷ (repo ++ b'/' ∷ (kind ++ b'/' ∷ number)))
      ≡ owner ∷ repo ∷ kind ∷ number ∷ []
split_parts owner repo kind number o r k n =
    split_on-append b'/' owner _ o
    ∙ ap (λ ps. owner ∷ ps)
        (split_on-append b'/' repo _ r
          ∙ ap (λ ps. repo ∷ ps)
              (split_on-append b'/' kind _ k ∙ ap (λ ps. kind ∷ ps) (split_on_last b'/' number n)))

kind-IsPart : (kind : Text) → (kind ≡ codes "pull") ⊎ (kind ≡ codes "pulls") → IsPart kind
kind-IsPart kind (inl e) = rw e (refl, (refl, (refl, (refl, tt))))
kind-IsPart kind (inr e) = rw e (refl, (refl, (refl, (refl, (refl, tt)))))

known_kind :
    (kind : Text)
    → (kind ≡ codes "pull") ⊎ (kind ≡ codes "pulls")
    → (text_eq kind (codes "pull") || text_eq kind (codes "pulls")) ≡ true
known_kind kind (inl e) = rw e (rw (text_eq_refl (codes "pull")) refl)
known_kind kind (inr e) = rw e (unfold text_eq in refl)

parts_known :
    (c : ℕ) (owner : Text) (d : ℕ) (repo kind : Text) (n : ℕ)
    → (kind ≡ codes "pull") ⊎ (kind ≡ codes "pulls")
    → 0 < n
    → n ≤ max_int
    → parts_of ((c ∷ owner) ∷ (d ∷ repo) ∷ kind ∷ decimal n ∷ []) ≡ some (c ∷ owner, d ∷ repo, n)
unfolding parts_of
parts_known c owner d repo kind n k pos fits =
    rw (known_kind kind k, atoi-decimal n fits) (unfold checked is_positive in ground arith)

split_canonical :
    (c : ℕ) (owner : Text) (d : ℕ) (repo kind : Text) (n : ℕ)
    → IsPart (c ∷ owner)
    → IsPart (d ∷ repo)
    → (kind ≡ codes "pull") ⊎ (kind ≡ codes "pulls")
    → 0 < n
    → n ≤ max_int
    → split_pr_path (pull_path (c ∷ owner) (d ∷ repo) kind n) ≡ some (c ∷ owner, d ∷ repo, n)
unfolding split_pr_path
split_canonical c owner d repo kind n o r k pos fits =
    let behind = b'/' ∷ ((d ∷ repo) ++ b'/' ∷ (kind ++ b'/' ∷ decimal n)) in
    let ends : EndsInPart behind = append-EndsInPart (b'/' ∷ []) _ (
      append-EndsInPart (d ∷ repo) _ (
        append-EndsInPart (b'/' ∷ []) _
          (append-EndsInPart kind _ (append-EndsInPart (b'/' ∷ []) _ (decimal-EndsInPart n))))) in
    ap (λ t. parts_of (split_on b'/' t)) (trim_path c owner behind o.0 ends)
    ∙ ap parts_of (
        split_parts (c ∷ owner) (d ∷ repo) kind (decimal n) o r (kind-IsPart kind k)
          (IsPart-of_digit (decimal n) (decimal-IsDigit n)))
    ∙ parts_known c owner d repo kind n k pos fits

-- ParseURL reads back the URLs that GitHub writes: for an owner and a repository that are not empty
-- and hold no slash, and a positive number that an `int` holds, under `pull` and `pulls` alike.
pub parse_url-canonical :
    (c : ℕ) (owner : Text) (d : ℕ) (repo scheme kind : Text) (n : ℕ)
    → IsPart (c ∷ owner)
    → IsPart (d ∷ repo)
    → scheme ≢ []
    → (kind ≡ codes "pull") ⊎ (kind ≡ codes "pulls")
    → 0 < n
    → n ≤ max_int
    → parse_url (
        some (record {
          scheme = scheme;
          host = public_host;
          path = pull_path (c ∷ owner) (d ∷ repo) kind n;
        }))
      ≡ ok (record { host = public_host; owner = c ∷ owner; repo = d ∷ repo; number = n })
unfolding parse_url
parse_url-canonical c owner d repo [] kind n o r s k pos fits = absurd (s refl)
parse_url-canonical c owner d repo (e ∷ scheme) kind n o r s k pos fits =
    rw (text_eq_refl public_host, split_canonical c owner d repo kind n o r k pos fits)
      (unfold ref_of in refl)
