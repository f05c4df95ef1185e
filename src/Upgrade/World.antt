-- ===== src/Upgrade/World.antt =====
-- manager/profile_upgrade.py: a running upgrade, and what is outside of it.
use fortifylab_archive.Prelude.{
  Bool, List, Option, String, [], false, none, some, ℕ, ◌++◌, ◌+◌, ◌∷◌,
}
use fortifylab_archive.Prelude.Table.{Table, put}
use fortifylab_archive.Upgrade.Types.{Event, Row, Upgrade, operation_row}

-- What is outside of a run, by the number of the moments that have passed: the cancellations and the
-- other threads, the adapter, whose rollback may be missing, the verifier and the clocks. An
-- upgrade, a rollback or a verification that raises is `false` or `none`.
pub record World : Type 0 where
  pub others : ℕ → Table Row → Table Row
  pub cancelled : ℕ → Bool
  pub upgrade : ℕ → String → Bool
  pub rollback : Option (ℕ → String → Bool)
  pub verify : ℕ → String → Option Bool
  pub monotonic : ℕ → ℕ
  pub now : ℕ → ℕ

pub record Run : Type 0 where
  pub store : Table Row
  pub document : Upgrade
  pub mutated : List String
  pub moment : ℕ

abbrev pub edit : (Upgrade → Upgrade) → Run → Run
edit f r = record r { document = f r.document }

abbrev pub note : Event → Upgrade → Upgrade
note e d = record d { evidence = d.evidence ++ e ∷ [] }

abbrev pub or_false : Option Bool → Bool
or_false none = false
or_false (some b) = b

module _ (world : World) where
  -- A moment passes, in which other threads may write to the store.
  abbrev pub tick : Run → Run
  tick r = record r { store = world.others r.moment r.store; moment = r.moment + 1 }

  -- `_save`
  unfoldable pub save : Run → Run
  save r =
      let later = tick r in
      let document : Upgrade = record r.document { updated_at = world.now later.moment } in
      record later {
        document = document;
        store = put document.id (operation_row document) later.store;
      }
