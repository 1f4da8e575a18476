-- ===== src/Settings/Config.antt =====
-- internal/store/settings.go: the project's settings as the commands read them, and what they fall
-- back to.
pub mod Laws
use j.Prelude.{
  ℕ, ◌+◌, ◌-◌, Bool, true, false, Text, codes, List, [], ◌∷◌, Option, none, some, Result, ok, err,
  is_empty, text_eq, trim_space, Int64, int_of, max_int, scan_digits, ltb, leb, ◌==◌, ◌||◌,
  if◌then◌else◌,
}
use j.Settings.{Bolt, BoltError, Refusals, get}

pub data ConfigError : Type 0 where
  settings_missing stat_failed open_failed : ConfigError
  missing_api_key missing_model missing_max_iterations : ConfigError

-- What os.Stat and store.Open make of the settings file.
pub data SettingsFile (Db : Type 0) : Type 0 where
  missing : SettingsFile Db
  unreadable : SettingsFile Db
  unopened : SettingsFile Db
  opened : Db → SettingsFile Db

abbrev pub default_task_max_iterations : ℕ
default_task_max_iterations = 3

abbrev pub default_plan_requires_approval : Bool
default_plan_requires_approval = true

abbrev pub project : Text
project = codes "project"

abbrev pub max_uint : ℕ
max_uint = 18446744073709551615

in_uint : Option ℕ → Option ℕ
in_uint none = none
in_uint (some n) = if leb n max_uint then some n else none

-- strconv.ParseUint(s, 10, 64)
unfoldable pub parse_uint : Text → Option ℕ
unfolding in_uint
parse_uint [] = none
parse_uint (c ∷ s) = in_uint (scan_digits (c ∷ s) 0)

-- int(n) on a uint64: the upper half of the range is negative.
unfoldable pub to_int : ℕ → Int64
to_int n =
    if leb n max_int then int_of n else record { negative = true; magnitude = max_uint + 1 - n }

one_of : Text → List Text → Bool
one_of s [] = false
one_of s (t ∷ ts) = text_eq s t || one_of s ts

-- strconv.ParseBool
unfoldable pub parse_bool : Text → Option Bool
unfolding one_of
parse_bool s =
    if one_of s
      (codes "1" ∷ codes "t" ∷ codes "T" ∷ codes "true" ∷ codes "TRUE" ∷ codes "True" ∷ [])
    then some true
    else if one_of s
        (codes "0" ∷ codes "f" ∷ codes "F" ∷ codes "false" ∷ codes "FALSE" ∷ codes "False" ∷ [])
    then some false
    else none

iterations_or : ℕ → Option ℕ → Int64
iterations_or n none = int_of n
iterations_or n (some m) = if m == 0 then int_of n else to_int m

-- What LoadTaskConfig makes of the setting's text.
task_iterations : Text → Int64
unfolding iterations_or
task_iterations raw =
    if is_empty raw
    then int_of default_task_max_iterations
    else iterations_or default_task_max_iterations (parse_uint raw)

trimmed : Result BoltError (Option Text) → Text
trimmed (err e) = []
trimmed (ok none) = []
trimmed (ok (some v)) = trim_space v

approval_or : Bool → Option Bool → Bool
approval_or b none = b
approval_or b (some c) = c

-- The config of LoadProjectConfig.
pub record ProjectConfig : Type 0 where
  pub api_key : Text
  pub model : Text
  pub max_iterations : ℕ

module _ (bolt : Bolt) where
  open bolt use {Db}

  -- readSetting as its callers use it: they drop its error, which comes with an empty value.
  unfoldable pub read_setting : Refusals → Text → Db → Text
  unfolding trimmed
  read_setting w key db = trimmed (get bolt w project key db)

  unfoldable pub load_task_config : Refusals → SettingsFile Db → Result ConfigError Int64
  unfolding task_iterations
  load_task_config w missing = ok (int_of default_task_max_iterations)
  load_task_config w unreadable = err stat_failed
  load_task_config w unopened = err open_failed
  load_task_config w (opened db) = ok (task_iterations (read_setting w (codes "max_iterations") db))

  unfoldable pub load_plan_requires_approval : Refusals → SettingsFile Db → Result ConfigError Bool
  unfolding approval_or
  load_plan_requires_approval w missing = ok default_plan_requires_approval
  load_plan_requires_approval w unreadable = err stat_failed
  load_plan_requires_approval w unopened = err open_failed
  load_plan_requires_approval w (opened db) =
      let raw = read_setting w (codes "plan_requires_approval") db in
      if is_empty raw
      then ok default_plan_requires_approval
      else ok (approval_or default_plan_requires_approval (parse_bool raw))

  with_iterations : Text → Text → Option ℕ → Result ConfigError ProjectConfig
  with_iterations api_key model none = err missing_max_iterations
  with_iterations api_key model (some n) =
      if n == 0
      then err missing_max_iterations
      else ok (record { api_key = api_key; model = model; max_iterations = n })

  unfoldable pub load_project_config : Refusals → SettingsFile Db → Result ConfigError ProjectConfig
  unfolding with_iterations
  load_project_config w missing = err settings_missing
  load_project_config w unreadable = err stat_failed
  load_project_config w unopened = err open_failed
  load_project_config w (opened db) =
      let api_key = read_setting w (codes "api_key") db in
      let model = read_setting w (codes "model") db in
      let raw = read_setting w (codes "max_iterations") db in
      if is_empty api_key
      then err missing_api_key
      else if is_empty model
      then err missing_model
      else if is_empty raw
      then err missing_max_iterations
      else with_iterations api_key model (parse_uint raw)
