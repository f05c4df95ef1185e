-- ===== src/Recovery/World.antt =====
-- manager/backup_restore.py: a worker of RecoveryService and what is outside of it. The documents of
-- the operation and of the artifact are local dictionaries of the worker; other threads act on the
-- service before each save and each look at the cancellations.
use fortifylab_archive.Prelude.{
  Bool, List, Option, String, [], contains, false, none, some, true, ℕ, ◌+◌, ◌==◌, ◌∷◌,
}
use fortifylab_archive.Prelude.Exec.{Exec, Outcome, ok, pure, raise, ◌>>=◌, ◌>>◌}
use fortifylab_archive.Prelude.Texts.{text_take}
use fortifylab_archive.Recovery.Service.{Service}
use fortifylab_archive.Recovery.Store.{put_operation}
use fortifylab_archive.Recovery.Types.{
  Artifact, Operation, Passed, RecoveryError, Scope, incompatible_backup, incomplete_artifact,
  other_exception, recovery_failed,
}

-- What is outside of a worker, by the number of the moments that have passed: other threads, the
-- privileged helper behind the adapter, the clock, and the digest of a document.
pub record World : Type 0 where
  pub others : ℕ → Service → Service
  pub backup : ℕ → Scope → Outcome RecoveryError (Option String)
  pub restore : ℕ → Scope → Outcome RecoveryError (Unit {0})
  pub verify : ℕ → Outcome RecoveryError (List Passed)
  pub clock : ℕ → ℕ
  pub digest : Artifact → String

pub record Worker : Type 0 where
  pub service : Service
  pub document : Operation
  pub archive : Artifact
  pub moment : ℕ

abbrev pub Work : Type 0
Work = Exec Worker RecoveryError (Unit {0})

abbrev pub modify : (Operation → Operation) → Work
modify f w = (ok tt, record w { document = f w.document })

-- `_safe_error`
abbrev pub safe_error : RecoveryError → String → String
safe_error (recovery_failed message) fallback = message
safe_error (incompatible_backup message) fallback = message
safe_error (incomplete_artifact message) fallback = message
safe_error other_exception fallback = fallback

-- `str(value)[:128]` of each of the three keys.
abbrev pub cut : Option String → Option String
cut none = none
cut (some t) = some (text_take 128 t)

-- `_sanitize_evidence`
unfoldable pub sanitize_evidence : List Passed → List Passed
unfolding text_take
sanitize_evidence [] = []
sanitize_evidence (p ∷ ps) =
    record { check = cut p.check; state = cut p.state; code = cut p.code } ∷ sanitize_evidence ps

abbrev pub has_passed : Passed → Bool
has_passed p = elim p.state [ none ↦ false | some s ↦ s == "passed" ]

-- A loop over scopes whose body may raise.
unfoldable pub for_each : (Scope → Work) → List Scope → Work
for_each body [] = pure tt
for_each body (scope ∷ scopes) = let rest = for_each body scopes in do body scope; rest

module _ (world : World) where
  abbrev pub let_others : Worker → Worker
  let_others w = record w { service = world.others w.moment w.service; moment = w.moment + 1 }

  abbrev pub stored : Worker → Worker
  stored w = record w {
    service = record w.service { store = put_operation w.document w.service.store };
  }

  -- `_save`
  unfoldable pub save : Work
  unfolding put_operation
  save w =
      let later = let_others w in
      (
        ok tt,
        stored (record later {
          document = record w.document { updated_at = world.clock later.moment };
        }),
      )

  -- `_is_cancelled`
  unfoldable pub is_cancelled : Exec Worker RecoveryError Bool
  unfolding contains
  is_cancelled w =
      let later = let_others w in (ok (contains later.service.cancelled w.document.id), later)

  abbrev pub refuse_if : Bool → Work
  refuse_if true = raise (recovery_failed "operation cancelled")
  refuse_if false = pure tt

  -- `_check_cancelled`
  unfoldable pub check_cancelled : Work
  unfolding is_cancelled
  check_cancelled = is_cancelled >>= refuse_if

  unfoldable pub call_backup : Scope → Exec Worker RecoveryError (Option String)
  call_backup scope w = let later = let_others w in (world.backup later.moment scope, later)

  unfoldable pub call_restore : Scope → Work
  call_restore scope w = let later = let_others w in (world.restore later.moment scope, later)

  unfoldable pub call_verify : Exec Worker RecoveryError (List Passed)
  call_verify w = let later = let_others w in (world.verify later.moment, later)
