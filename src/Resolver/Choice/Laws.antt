-- ===== src/Resolver/Choice/Laws.antt =====
-- A choice that the user has made is remembered.
use mathlib.Core.Path.{ap₂, subst}
use j.Prelude.{
  ◌≡◌, inl, inr, refl, sym, ap, ◌∙◌, true, false, Bool-cases, Option-cases, Text, List, map, Option,
  none, some, Result, ok, err, is_empty, ◌&&◌,
}
use j.Settings.{Bolt, Refusals, persist_agent_selection}
use j.Settings.Laws.{Remembers, persist-Remembers}
use j.CodingAgents.{Agent, lookup_agent}
use j.CodingAgents.Laws.{lookup_name}
use j.Resolver.Choice.{
  AgentError, AgentOptions, no_stored_selection, logged_in, with_model, with_models, with_tool,
  answered, pick_agent, setting, read_tool_model, stored, stored_pair, known, agent_from_store,
  remembered, behind_store, agent,
}

-- A backend that a lookup by its own name finds, and that is logged in.
pub record IsUsable (agents : List Agent) (a : Agent) : Type 0 where
  pub looked_up : lookup_agent agents a.name ≡ some a
  pub is_in : a.logged_in ≡ true

logged_in_ok :
    (model m : Text) (b a : Agent) → logged_in model b ≡ ok (a, m) → (b ≡ a) × (b.logged_in ≡ true)
unfolding logged_in
logged_in_ok model m b a h = elim (Bool-cases b.logged_in) [
  | inr out ↦ absurd (cc (rw out at h))
  | inl entered ↦
      let p : Agent × Text = (b, model) in
      let q : Agent × Text = (a, m) in
      let pair : p ≡ q = cc (rw entered at h) in (ap (λ x. x.0) pair, entered)
]

with_model_ok :
    (opts : AgentOptions) (b a : Agent) (m : Text) (o : Option Text)
    → with_model opts b o ≡ ok (a, m)
    → (b ≡ a) × (b.logged_in ≡ true)
unfolding with_model
with_model_ok opts b a m none h = absurd (cc)
with_model_ok opts b a m (some model) h = logged_in_ok model m b a h

with_models_ok :
    (opts : AgentOptions) (b a : Agent) (m : Text) (o : Option (List Text))
    → with_models opts b o ≡ ok (a, m)
    → (b ≡ a) × (b.logged_in ≡ true)
unfolding with_models
with_models_ok opts b a m none h = absurd (cc)
with_models_ok opts b a m (some models) h = with_model_ok opts b a m (opts.select_model models) h

pick_agent_ok :
    (opts : AgentOptions) (a : Agent) (m : Text)
    → pick_agent opts ≡ ok (a, m)
    → IsUsable opts.agents a
unfolding pick_agent answered with_tool
pick_agent_ok opts a m h =
    elim (Option-cases (opts.select_tool (map (λ (x : Agent). x.name) opts.agents))) [
      | inl unanswered ↦ absurd (cc (rw unanswered at h))
      | inr (chosen, answer) ↦ elim (Option-cases (lookup_agent opts.agents chosen)) [
        | inl missing ↦ absurd (cc (rw (answer, missing) at h))
        | inr (b, there) ↦
            let (same, entered) = with_models_ok opts b a m b.models (rw (answer, there) at h) in
            let name = lookup_name opts.agents chosen b there in
            subst (IsUsable opts.agents) same
              (record { looked_up = ap (lookup_agent opts.agents) name ∙ there; is_in = entered })
      ]
    ]

module _ (bolt : Bolt) where
  open bolt use {Db}

  -- The user was asked, and the answer was written.
  abbrev Made : Refusals → AgentOptions → Db → Agent → Text → Db → Type 0
  Made w opts db a m db' =
      IsUsable opts.agents a
      × (persist_agent_selection bolt w opts.bucket a.name m db ≡ (true, db'))

  remembered_ok :
      (w : Refusals) (opts : AgentOptions) (db : Db) (a : Agent) (m : Text)
      (r : Result AgentError (Agent × Text))
      → pick_agent opts ≡ r
      → let c = remembered bolt w opts db r in
        (c.saved ≡ true) → (c.result ≡ ok (a, m)) → Made w opts db a m c.db
  unfolding remembered
  remembered_ok w opts db a m (err e) p s h = absurd (cc)
  remembered_ok w opts db a m (ok (b, n)) p s h = elim (Bool-cases opts.writes) [
    | inr closed ↦ absurd (cc (rw closed at s))
    | inl writes ↦
        let one : Agent × Text = (b, n) in
        let two : Agent × Text = (a, m) in
        let pair : one ≡ two = cc (rw writes at h) in
        let written : (persist_agent_selection bolt w opts.bucket b.name n db).0 ≡ true =
          rw writes at s in
        let after = (persist_agent_selection bolt w opts.bucket b.name n db).1 in
        rw writes (
          subst
            (λ (q : Agent × Text).
              IsUsable opts.agents q.0
              × (persist_agent_selection bolt w opts.bucket q.0.name q.1 db ≡ (true, after)))
            pair (pick_agent_ok opts b n p, ap₂ (λ e d. (e, d)) written refl))
  ]

  behind_store_ok :
      (w : Refusals) (opts : AgentOptions) (db : Db) (a : Agent) (m : Text)
      (r : Result AgentError (Agent × Text))
      → let c = behind_store bolt w opts db r in
        (c.saved ≡ true) → (c.result ≡ ok (a, m)) → Made w opts db a m c.db
  unfolding behind_store
  behind_store_ok w opts db a m (ok r) s h = absurd (cc)
  behind_store_ok w opts db a m (err no_stored_selection) s h =
      remembered_ok w opts db a m (pick_agent opts) refl s h
  behind_store_ok w opts db a m (err _) s h = absurd (cc)

  saved_choice :
      (w : Refusals) (opts : AgentOptions) (db : Db) (a : Agent) (m : Text)
      → (agent bolt w opts db).saved ≡ true
      → (agent bolt w opts db).result ≡ ok (a, m)
      → Made w opts db a m (agent bolt w opts db).db
  unfolding agent
  saved_choice w opts db a m s h =
      elim (Bool-cases (is_empty opts.explicit_tool && is_empty opts.explicit_model)) [
        | inr flags ↦ absurd (cc (rw flags at s))
        | inl plain ↦ rw plain (
            behind_store_ok w opts db a m (agent_from_store bolt w opts db) (rw plain at s)
              (rw plain at h))
      ]

  known_ok :
      (agents : List Agent) (a : Agent) (m : Text)
      → IsUsable agents a
      → known a.name m (lookup_agent agents a.name) ≡ ok (a, m)
  unfolding known logged_in
  known_ok agents a m usable = rw (usable.looked_up, usable.is_in) refl

  from_memory :
      (w : Refusals) (opts : AgentOptions) (db : Db) (a : Agent) (m : Text)
      → IsUsable opts.agents a
      → Remembers bolt opts.bucket a.name m db
      → opts.reads ≡ true
      → w.view ≡ false
      → is_empty a.name ≡ false
      → is_empty m ≡ false
      → agent_from_store bolt w opts db ≡ ok (a, m)
  unfolding agent_from_store read_tool_model stored stored_pair setting
  from_memory w opts db a m usable mem reads sees named chosen =
      rw (reads, mem.lists w sees, mem.tool_there, mem.model_there, named, chosen)
        (known_ok opts.agents a m usable)

  -- A choice that the user made and that was written is remembered: the next call for the same phase
  -- and backends, without flags and with the settings at hand, comes to the same backend and model
  -- without a question, whatever the user would answer, and leaves the settings as they are.
  pub choice_is_remembered :
      (w w' : Refusals) (opts opts' : AgentOptions) (db : Db) (a : Agent) (m : Text)
      → (agent bolt w opts db).saved ≡ true
      → (agent bolt w opts db).result ≡ ok (a, m)
      → is_empty a.name ≡ false
      → is_empty m ≡ false
      → opts'.bucket ≡ opts.bucket
      → opts'.agents ≡ opts.agents
      → is_empty opts'.explicit_tool ≡ true
      → is_empty opts'.explicit_model ≡ true
      → opts'.reads ≡ true
      → w'.view ≡ false
      → agent bolt w' opts' (agent bolt w opts db).db ≡ record {
        result = ok (a, m);
        asked = false;
        saved = false;
        db = (agent bolt w opts db).db;
      }
  choice_is_remembered w w' opts opts' db a m s h named chosen bucket agents no_tool no_model reads
        sees =
      let after = (agent bolt w opts db).db in
      let (usable, wrote) = saved_choice w opts db a m s h in
      let mem = persist-Remembers bolt w opts.bucket a.name m db after wrote in
      let again =
        from_memory w' opts' after a m (subst (λ xs. IsUsable xs a) (sym agents) usable)
          (subst (λ b. Remembers bolt b a.name m after) (sym bucket) mem) reads sees named chosen in
      unfold agent behind_store in rw (no_tool, no_model, again) refl
