-- ===== src/Cli/Discard/Laws.antt =====
-- What a discard removes, and what it leaves.
use j.Prelude.{◌≡◌, false, Text, Result, ok, err, text_eq}
use j.Tasks.Wire.{Toml}
use j.Tasks.Store.{Store, not_exist, get_task}
use j.Cli.Discard.{DiscardError, not_removed, Discard, discarded}

module _ (toml : Toml) where
  open toml use {Bytes}

  -- Every row but that of `id` is read as before.
  abbrev pub KeepsOthers : Text → Store Bytes → Store Bytes → Type 0
  KeepsOthers id s s' =
      (other : Text) → text_eq id other ≡ false → get_task toml other s' ≡ get_task toml other s

  -- What the result of a discard tells of the store.
  abbrev pub Effect : Result DiscardError Discard → Store Bytes → Store Bytes → Type 0
  Effect (ok (discarded id name)) s s' =
      (get_task toml id s' ≡ err (not_exist id)) × KeepsOthers id s s'
  Effect (err (not_removed id e)) s s' = KeepsOthers id s s'
  Effect _ s s' = s' ≡ s
