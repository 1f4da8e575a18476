-- ===== src/Resolver/Choice.antt =====
-- agent.go of the resolver, and picker.PickAgent: which backend and model a phase runs with, from the
-- flags, from the settings, or from the user's answers, which are remembered.
pub mod Laws
use j.Prelude.{
  Bool, true, false, Text, codes, List, [], ◌∷◌, map, Option, none, some, Result, ok, err, is_empty,
  text_eq, ◌&&◌, ◌||◌, not, if◌then◌else◌,
}
use j.Settings.{Bolt, BoltError, Refusals, Kv, value_of, list, persist_agent_selection}
use j.CodingAgents.{Agent, lookup_agent}

pub data AgentError : Type 0 where
  no_stored_selection read_failed not_logged_in : AgentError
  unknown_tool : Text → AgentError
  model_without_tool tool_without_model : AgentError
  tool_not_selected no_models model_not_selected : AgentError

-- AgentOptions. `select_tool` and `select_model` are what the user answers, `none` for an error.
-- `reads` and `writes` tell whether the settings store is at hand: given, or opened for the call.
pub record AgentOptions : Type 0 where
  pub bucket : Text
  pub agents : List Agent
  pub explicit_tool : Text
  pub explicit_model : Text
  pub select_tool : List Text → Option Text
  pub select_model : List Text → Option Text
  pub reads : Bool
  pub writes : Bool

logged_in : Text → Agent → Result AgentError (Agent × Text)
logged_in model a = if a.logged_in then ok (a, model) else err not_logged_in

known : Text → Text → Option Agent → Result AgentError (Agent × Text)
unfolding logged_in
known tool model none = err (unknown_tool tool)
known tool model (some a) = logged_in model a

with_model : AgentOptions → Agent → Option Text → Result AgentError (Agent × Text)
unfolding logged_in
with_model opts a none = err model_not_selected
with_model opts a (some model) = logged_in model a

with_models : AgentOptions → Agent → Option (List Text) → Result AgentError (Agent × Text)
unfolding with_model
with_models opts a none = err no_models
with_models opts a (some models) = with_model opts a (opts.select_model models)

with_tool : AgentOptions → Text → Option Agent → Result AgentError (Agent × Text)
unfolding with_models
with_tool opts chosen none = err (unknown_tool chosen)
with_tool opts chosen (some a) = with_models opts a a.models

answered : AgentOptions → Option Text → Result AgentError (Agent × Text)
unfolding with_tool
answered opts none = err tool_not_selected
answered opts (some chosen) = with_tool opts chosen (lookup_agent opts.agents chosen)

-- picker.PickAgent
unfoldable pub pick_agent : AgentOptions → Result AgentError (Agent × Text)
unfolding answered
pick_agent opts = answered opts (opts.select_tool (map (λ a. a.name) opts.agents))

or_empty : Option Text → Text
or_empty none = []
or_empty (some v) = v

unfoldable pub setting : Text → List Kv → Text
unfolding or_empty
setting key values = or_empty (value_of values key)

or_stored : Text → Text → Text
or_stored given stored = if is_empty given then stored else given

module _ (bolt : Bolt) where
  open bolt use {Db}

  -- readToolModel; without a store there are no values.
  unfoldable pub read_tool_model : Refusals → AgentOptions → Db → Result AgentError (List Kv)
  read_tool_model w opts db =
      if opts.reads
      then elim (list bolt w opts.bucket db) [ ok kvs ↦ ok kvs | err e ↦ err read_failed ]
      else ok []

  stored_pair : AgentOptions → Text → Text → Result AgentError (Agent × Text)
  unfolding known
  stored_pair opts tool model =
      if is_empty tool || is_empty model
      then err no_stored_selection
      else known tool model (lookup_agent opts.agents tool)

  stored : AgentOptions → Result AgentError (List Kv) → Result AgentError (Agent × Text)
  unfolding stored_pair
  stored opts (err e) = err e
  stored opts (ok values) =
      stored_pair opts (setting (codes "tool") values) (setting (codes "model") values)

  -- agentFromStoreLazy, and AgentFromStore.
  unfoldable pub agent_from_store : Refusals → AgentOptions → Db → Result AgentError (Agent × Text)
  unfolding stored
  agent_from_store w opts db =
      if opts.reads then stored opts (read_tool_model w opts db) else err no_stored_selection

  explicit_pair : AgentOptions → Text → Text → Result AgentError (Agent × Text)
  unfolding known
  explicit_pair opts tool model =
      if is_empty tool
      then err model_without_tool
      else if is_empty model
      then err tool_without_model
      else known tool model (lookup_agent opts.agents tool)

  filled : AgentOptions → Result AgentError (List Kv) → Result AgentError (Agent × Text)
  unfolding explicit_pair or_stored
  filled opts (err e) = err e
  filled opts (ok values) =
      explicit_pair opts (or_stored opts.explicit_tool (setting (codes "tool") values))
        (or_stored opts.explicit_model (setting (codes "model") values))

  -- resolveExplicit, and resolveAgent: the settings are only read for a half that is missing.
  unfoldable pub resolve_explicit : Refusals → AgentOptions → Db → Result AgentError (Agent × Text)
  unfolding filled
  resolve_explicit w opts db =
      if is_empty opts.explicit_tool && is_empty opts.explicit_model
      then err no_stored_selection
      else if is_empty opts.explicit_tool || is_empty opts.explicit_model
      then filled opts (read_tool_model w opts db)
      else explicit_pair opts opts.explicit_tool opts.explicit_model

  -- The loop of ResolveToolModel.
  filled_in : List Kv → Text × Text → Text × Text
  filled_in [] pair = pair
  filled_in ((k, v) ∷ kvs) (tool, model) = filled_in kvs (
    if is_empty tool && text_eq k (codes "tool") then v else tool,
    if is_empty model && text_eq k (codes "model") then v else model,
  )

  listed : Result BoltError (List Kv) → List Kv
  listed (ok kvs) = kvs
  listed (err e) = []

  -- ResolveToolModel: the settings are not opened where both halves are given, and a failure to read
  -- them leaves what is given.
  unfoldable pub resolve_tool_model : Refusals → AgentOptions → Db → Text × Text
  unfolding filled_in listed
  resolve_tool_model w opts db =
      let given : Text × Text = (opts.explicit_tool, opts.explicit_model) in
      let found = filled_in (listed (list bolt w opts.bucket db)) given in
      if not (is_empty opts.explicit_tool) && not (is_empty opts.explicit_model)
      then given
      else if opts.reads
      then found
      else given

  -- A choice, whether the user was asked, whether the answer was written, and the settings.
  pub record Choice : Type 0 where
    pub result : Result AgentError (Agent × Text)
    pub asked : Bool
    pub saved : Bool
    pub db : Db

  abbrev pub unasked : Db → Result AgentError (Agent × Text) → Choice
  unasked db r = record { result = r; asked = false; saved = false; db = db }

  remembered : Refusals → AgentOptions → Db → Result AgentError (Agent × Text) → Choice
  remembered w opts db (err e) = record { result = err e; asked = true; saved = false; db = db }
  remembered w opts db (ok (a, model)) =
      let (saved, db') = persist_agent_selection bolt w opts.bucket a.name model db in
      if opts.writes
      then record { result = ok (a, model); asked = true; saved = saved; db = db' }
      else record { result = ok (a, model); asked = true; saved = false; db = db }

  behind_store : Refusals → AgentOptions → Db → Result AgentError (Agent × Text) → Choice
  unfolding remembered
  behind_store w opts db (ok r) = unasked db (ok r)
  behind_store w opts db (err no_stored_selection) = remembered w opts db (pick_agent opts)
  behind_store w opts db (err e) = unasked db (err e)

  -- Agent
  unfoldable pub agent : Refusals → AgentOptions → Db → Choice
  unfolding behind_store
  agent w opts db =
      if is_empty opts.explicit_tool && is_empty opts.explicit_model
      then behind_store w opts db (agent_from_store w opts db)
      else unasked db (resolve_explicit w opts db)
