-- ===== src/Settings/Laws.antt =====
-- What is put into the settings is found there, by a get and by a list.
use mathlib.Core.Path.{ap₂, subst}
use j.Prelude.{
  ◌≡◌, inl, inr, refl, sym, ap, ◌∙◌, true, false, Bool-cases, Option-cases, Text, codes, List, [],
  ◌∷◌, Option, none, some, ok, Ordering, text_eq, text_eq_sound, text_eq_refl, text_compare,
  text_compare_refl, sort, insert, if◌then◌else◌, arith,
}
use j.Settings.{
  Bolt, BoltError, Refusals, Kv, value_of, put, get, list, by_key, went_through, second_put,
  persist_agent_selection,
}

equal_keys :
    (x y k : Text) → text_eq x k ≡ true → text_eq y k ≡ true → text_compare x y ≡ Ordering.eq
equal_keys x y k h e =
    let one = text_eq_sound x k h in
    let two = text_eq_sound y k e in
    subst (λ z. text_compare x z ≡ Ordering.eq) (one ∙ sym two) (text_compare_refl x)

value_of-insert :
    (x : Kv) (kvs : List Kv) (k : Text) → value_of (insert by_key x kvs) k ≡ value_of (x ∷ kvs) k
unfolding value_of insert
value_of-insert x [] k = refl
value_of-insert x (y ∷ kvs) k = ground (arith, equal_keys x.0 y.0 k, value_of-insert x kvs k)

value_of-sort : (kvs : List Kv) (k : Text) → value_of (sort by_key kvs) k ≡ value_of kvs k
unfolding sort value_of
value_of-sort [] k = refl
value_of-sort (x ∷ kvs) k =
    value_of-insert x (sort by_key kvs) k ∙ ground (arith, value_of-sort kvs k)

module _ (bolt : Bolt) where
  open bolt use {Db}

  -- What a put that goes through leaves.
  pub record IsPut (b k v : Text) (db db' : Db) : Type 0 where
    pub there : bolt.has_bucket b db' ≡ true
    pub gets :
        (key : Text) → bolt.get b key db' ≡ (if text_eq k key then some v else bolt.get b key db)

  put_ok :
      (w : Refusals) (b k v : Text) (db db' : Db)
      → put bolt w b k v db ≡ (none, db')
      → IsPut b k v db db'
  unfolding put
  put_ok w b k v db db' h = elim (Bool-cases w.update) [
    | inl refuses ↦ absurd (cc (ap (λ p. p.0) (rw refuses at h)))
    | inr works ↦ elim (Option-cases (bolt.create_bucket b db)) [
      | inl fails ↦ absurd (cc (ap (λ p. p.0) (rw (works, fails) at h)))
      | inr (mid, made) ↦ elim (Option-cases (bolt.put_in b k v mid)) [
        | inl fails ↦ absurd (cc (ap (λ p. p.0) (rw (works, made, fails) at h)))
        | inr (end, wrote) ↦
            let same : end ≡ db' = ap (λ p. p.1) (rw (works, made, wrote) at h) in
            subst (IsPut b k v db) same (record {
              there =
                  bolt.has_bucket-put_in b k v mid end wrote b
                  ∙ bolt.has_bucket-create_bucket b db mid made b
                  ∙ rw (text_eq_refl b) refl;
              gets = λ key.
                  bolt.get-put_in b k v mid end wrote b key
                  ∙ rw (text_eq_refl b, bolt.get-create_bucket b db mid made b key) refl;
            })
      ]
    ]
  ]

  -- A put that goes through is found by the next get.
  pub get_put :
      (w w' : Refusals) (b k v : Text) (db db' : Db)
      → put bolt w b k v db ≡ (none, db')
      → w'.view ≡ false
      → get bolt w' b k db' ≡ ok (some v)
  unfolding get
  get_put w w' b k v db db' h sees =
      let done = put_ok w b k v db db' h in rw (sees, done.there, done.gets k, text_eq_refl k) refl

  -- The value of a key on a bucket's list.
  listed :
      (w : Refusals) (b : Text) (db : Db)
      → w.view ≡ false
      → bolt.has_bucket b db ≡ true
      → list bolt w b db ≡ ok (sort by_key (bolt.pairs b db))
  unfolding list
  listed w b db sees there = rw (sees, there) refl

  value_listed :
      (b k : Text) (db : Db) → value_of (sort by_key (bolt.pairs b db)) k ≡ bolt.get b k db
  value_listed b k db = value_of-sort (bolt.pairs b db) k ∙ bolt.value_of-pairs b k db

  -- The bucket behind a selection that is written in full.
  pub record Remembers (b tool model : Text) (db : Db) : Type 0 where
    pub kvs : List Kv
    pub lists : (w : Refusals) → w.view ≡ false → list bolt w b db ≡ ok kvs
    pub tool_there : value_of kvs (codes "tool") ≡ some tool
    pub model_there : value_of kvs (codes "model") ≡ some model

  went_through_ok :
      (db' : Db) (p : Option BoltError × Db) → went_through bolt p ≡ (true, db') → p ≡ (none, db')
  unfolding went_through
  went_through_ok db' (some e, db) h = absurd (cc (ap (λ q. q.0) h))
  went_through_ok db' (none, db) h = ap₂ (λ e d. (e, d)) refl (ap (λ q. q.1) h)

  second_put_ok :
      (w : Refusals) (b model : Text) (db' : Db) (p : Option BoltError × Db)
      → second_put bolt w b model p ≡ (true, db')
      → (p.0 ≡ none) × (put bolt w b (codes "model") model p.1 ≡ (none, db'))
  unfolding second_put
  second_put_ok w b model db' (some e, db) h = absurd (cc (ap (λ q. q.0) h))
  second_put_ok w b model db' (none, db) h =
      (refl, went_through_ok db' (put bolt w b (codes "model") model db) h)

  pub persist-Remembers :
      (w : Refusals) (b tool model : Text) (db db' : Db)
      → persist_agent_selection bolt w b tool model db ≡ (true, db')
      → Remembers b tool model db'
  unfolding persist_agent_selection text_eq
  persist-Remembers w b tool model db db' h =
      let first = put bolt w b (codes "tool") tool db in
      let (fine, wrote) = second_put_ok w b model db' first h in
      let one = put_ok w b (codes "tool") tool db first.1 (ap₂ (λ e d. (e, d)) fine refl) in
      let two = put_ok w b (codes "model") model first.1 db' wrote in
      record {
        kvs = sort by_key (bolt.pairs b db');
        lists = λ v sees. listed v b db' sees two.there;
        tool_there =
            value_listed b (codes "tool") db' ∙ two.gets (codes "tool") ∙ one.gets (codes "tool");
        model_there = value_listed b (codes "model") db' ∙ two.gets (codes "model");
      }
