-- ===== src/Verifier/Verdict/Line.antt =====
-- The verdict pattern on one line against a description of the lines that it matches.
use mathlib.Core.Path.{subst}
use j.Prelude.{
  ℕ, ◌<◌, ◌≡◌, refl, ◌∙◌, inl, inr, ap, true, false, Text, codes, [], ◌∷◌, ◌++◌, none, some,
  is_empty, drop_while, All, arith, Bool-cases, Option-cases,
}
use j.Verifier.Verdict.{
  Verdict, pass, fail, is_ws, folds, strip_word, verdict_word, pass_word, fail_word, match_tail,
  match_outcome, match_fail, match_verdict,
}

-- A text spells a word of the pattern, letter for letter up to case.
abbrev pub Spells : Text → Text → Type 0
Spells [] [] = Unit
Spells [] (c ∷ s) = ⊥
Spells (w ∷ ws) [] = ⊥
Spells (w ∷ ws) (c ∷ s) = (folds w c ≡ true) × Spells ws s

abbrev pub Blank : Text → Type 0
Blank s = All (λ c. is_ws c ≡ true) s

abbrev pub word_of : Verdict → Text
word_of pass = pass_word
word_of fail = fail_word

-- A line that carries a verdict: the two words, with white space before, between and behind.
pub record Carries (v : Verdict) (line : Text) : Type 0 where
  pub before : Text
  pub head : Text
  pub between : Text
  pub word : Text
  pub behind : Text
  pub parts : line ≡ before ++ (head ++ (between ++ (word ++ behind)))
  pub before_blank : Blank before
  pub head_spelt : Spells verdict_word head
  pub between_blank : Blank between
  pub word_spelt : Spells (word_of v) word
  pub behind_blank : Blank behind

strip_word_sound : (p s r : Text) → strip_word p s ≡ some r → (v : Text) × (s ≡ v ++ r) × Spells p v
unfolding strip_word
strip_word_sound [] s r h = ([], ground arith, tt)
strip_word_sound (w ∷ ws) [] r h = cc
strip_word_sound (w ∷ ws) (c ∷ s) r h = elim (Bool-cases (folds w c)) [
  | inl y ↦
      let (v, e, spelt) = strip_word_sound ws s r (rw y at h) in
      (c ∷ v, ap (λ t. c ∷ t) e, (y, spelt))
  | inr n ↦ cc (rw n at h)
]

strip_word_complete : (p v r : Text) → Spells p v → strip_word p (v ++ r) ≡ some r
unfolding strip_word
strip_word_complete [] [] r h = refl
strip_word_complete [] (c ∷ v) r h = absurd h
strip_word_complete (w ∷ ws) [] r h = absurd h
strip_word_complete (w ∷ ws) (c ∷ v) r h = rw h.0 (strip_word_complete ws v r h.1)

drop_while_sound : (s : Text) → (a : Text) × (s ≡ a ++ drop_while is_ws s) × Blank a
unfolding drop_while
drop_while_sound [] = ([], refl, tt)
drop_while_sound (c ∷ s) = elim (Bool-cases (is_ws c)) [
  | inl y ↦ let (a, e, blank) = drop_while_sound s in (c ∷ a, rw y (ap (λ t. c ∷ t) e), (y, blank))
  | inr n ↦ ([], rw n refl, tt)
]

drop_while-Blank : (a s : Text) → Blank a → drop_while is_ws (a ++ s) ≡ drop_while is_ws s
unfolding drop_while
drop_while-Blank [] s h = refl
drop_while-Blank (c ∷ a) s h = rw h.0 (drop_while-Blank a s h.1)

-- A text that spells a word of letters does not begin with white space.
not_ws : (w c : ℕ) → folds w c ≡ true → is_ws w ≡ false → 32 < w → is_ws c ≡ false
unfolding folds is_ws
not_ws w c h k l = ground arith

keeps_front :
    (w : ℕ) (ws v r : Text)
    → is_ws w ≡ false
    → 32 < w
    → Spells (w ∷ ws) v
    → drop_while is_ws (v ++ r) ≡ v ++ r
unfolding drop_while
keeps_front w ws [] r k l h = absurd h
keeps_front w ws (c ∷ v) r k l h = rw (not_ws w c h.0 k l)

Blank-rest : (r : Text) → is_empty (drop_while is_ws r) ≡ true → Blank r
unfolding drop_while
Blank-rest [] h = tt
Blank-rest (c ∷ r) h = elim (Bool-cases (is_ws c)) [
  | inl y ↦ (y, Blank-rest r (rw y at h))
  | inr n ↦ cc (rw n at h)
]

rest-Blank : (r : Text) → Blank r → is_empty (drop_while is_ws r) ≡ true
unfolding drop_while
rest-Blank [] h = refl
rest-Blank (c ∷ r) h = rw h.0 (rest-Blank r h.1)

not_pass : (v r : Text) → Spells fail_word v → strip_word pass_word (v ++ r) ≡ none
unfolding strip_word folds
not_pass [] r h = absurd h
not_pass (c ∷ v) r h = ground (arith, h.0)

-- What follows the first word: white space, one of the two words, and white space.
tail_carries :
    (v : Verdict) (s : Text)
    → match_tail (some s) ≡ some v
    → (between : Text) × (word : Text) × (behind : Text) × (s ≡ between ++ (word ++ behind))
      × Blank between
      × Spells (word_of v) word
      × Blank behind
unfolding match_tail match_outcome match_fail
tail_carries v s h =
    let (between, e, blank) = drop_while_sound s in
    let s' = drop_while is_ws s in
    elim (Option-cases (strip_word pass_word s')) [
      | inr (r, p) ↦
          let (word, e', spelt) = strip_word_sound pass_word s' r p in
          elim (Bool-cases (is_empty (drop_while is_ws r))) [
            | inl y ↦
                let is : pass ≡ v = ground arith in
                (
                  between,
                  word,
                  r,
                  e ∙ ap (λ t. between ++ t) e',
                  blank,
                  subst (λ v. Spells (word_of v) word) is spelt,
                  Blank-rest r y,
                )
            | inr n ↦ ground arith
          ]
      | inl q ↦ elim (Option-cases (strip_word fail_word s')) [
        | inr (r, p) ↦
            let (word, e', spelt) = strip_word_sound fail_word s' r p in
            elim (Bool-cases (is_empty (drop_while is_ws r))) [
              | inl y ↦
                  let is : fail ≡ v = ground arith in
                  (
                    between,
                    word,
                    r,
                    e ∙ ap (λ t. between ++ t) e',
                    blank,
                    subst (λ v. Spells (word_of v) word) is spelt,
                    Blank-rest r y,
                  )
              | inr n ↦ ground arith
            ]
        | inl p ↦ ground arith
      ]
    ]

no_tail : (v : Verdict) → match_tail none ≡ some v → ⊥
unfolding match_tail
no_tail v h = cc

pub match-Carries : (v : Verdict) (line : Text) → match_verdict line ≡ some v → Carries v line
unfolding match_verdict
match-Carries v line h =
    let (before, e, blank) = drop_while_sound line in
    let s = drop_while is_ws line in
    elim (Option-cases (strip_word verdict_word s)) [
      | inl p ↦ absurd (no_tail v (rw p at h))
      | inr (r, p) ↦
          let (head, e', spelt) = strip_word_sound verdict_word s r p in
          let (between, word, behind, e'', b, w, t) = tail_carries v r (rw p at h) in
          record {
            before = before;
            head = head;
            between = between;
            word = word;
            behind = behind;
            parts = e ∙ ap (λ t. before ++ t) (e' ∙ ap (λ t. head ++ t) e'');
            before_blank = blank;
            head_spelt = spelt;
            between_blank = b;
            word_spelt = w;
            behind_blank = t;
          }
    ]

outcome_matches :
    (v : Verdict) (word behind : Text)
    → Spells (word_of v) word
    → Blank behind
    → match_outcome (word ++ behind) (strip_word pass_word (word ++ behind)) ≡ some v
unfolding match_outcome match_fail
outcome_matches pass word behind w t =
    rw (strip_word_complete pass_word word behind w, rest-Blank behind t)
outcome_matches fail word behind w t =
    rw (not_pass word behind w, strip_word_complete fail_word word behind w, rest-Blank behind t)

word_front :
    (v : Verdict) (word behind : Text)
    → Spells (word_of v) word
    → drop_while is_ws (word ++ behind) ≡ word ++ behind
unfolding is_ws
word_front pass word behind w = keeps_front b'P' (codes "ASS") word behind refl (omega arith) w
word_front fail word behind w = keeps_front b'F' (codes "AIL") word behind refl (omega arith) w

head_front :
    (head rest : Text) → Spells verdict_word head → drop_while is_ws (head ++ rest) ≡ head ++ rest
unfolding is_ws
head_front head rest h = keeps_front b'V' (codes "ERDICT:") head rest refl (omega arith) h

tail_matches :
    (v : Verdict) (between word behind : Text)
    → Blank between
    → Spells (word_of v) word
    → Blank behind
    → match_tail (some (between ++ (word ++ behind))) ≡ some v
unfolding match_tail
tail_matches v between word behind b w t =
    rw (drop_while-Blank between (word ++ behind) b)
      (rw (word_front v word behind w) (outcome_matches v word behind w t))

pub Carries-match : (v : Verdict) (line : Text) → Carries v line → match_verdict line ≡ some v
unfolding match_verdict
Carries-match v line c =
    let rest = c.between ++ (c.word ++ c.behind) in
    rw c.parts (
      rw (drop_while-Blank c.before (c.head ++ rest) c.before_blank) (
        rw (head_front c.head rest c.head_spelt) (
          rw (strip_word_complete verdict_word c.head rest c.head_spelt) (
            tail_matches v c.between c.word c.behind c.between_blank c.word_spelt c.behind_blank))))
