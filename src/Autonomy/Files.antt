-- ===== src/Autonomy/Files.antt =====
-- supervisor/autonomy_policy.py: `load_policy` and `replace_policy`. A file is what the checks see
-- of it; writing one through a temporary file and a rename is one step.
use fortifylab_archive.Autonomy.Policy.{
  Clockwork, EffectivePolicy, Error, Scalar, Wish, effective, malformed, mapping, migration_policy,
  natural, not_object, not_owned, not_regular, null, schema_version, text, too_open, unknown_field,
  unreadable, unsupported_schema,
}
use fortifylab_archive.Prelude.{
  Bool, List, Option, String, [], contains, eqb, false, if◌then◌else◌, none, not, some, true, ℕ,
  ◌%◌, ◌&&◌, ◌==◌, ◌∷◌,
}
use fortifylab_archive.Prelude.Exec.{Outcome, after, ok, raised}
use fortifylab_archive.Prelude.Table.{Table, select}

pub data Value : Type 0 where
  scalar : Scalar → Value
  object : Table Scalar → Value

pub data Content : Type 0 where
  unreadable_text malformed_text other_value : Content
  json_object : Table Value → Content

pub record PolicyFile : Type 0 where
  pub is_regular : Bool
  pub is_owned : Bool
  pub mode : ℕ
  pub content : Content

abbrev pub fields : List String
fields = "schema_version" ∷ "profile" ∷ "generation" ∷ "expires_at" ∷ "actions" ∷ []

unfoldable pub known_fields : Table Value → Bool
unfolding contains
known_fields [] = true
known_fields ((name, _) ∷ rest) = contains fields name && known_fields rest

-- `document.get(name)`, where no nested value is expected.
abbrev pub scalar_of : Option Value → Scalar
scalar_of none = null
scalar_of (some (scalar s)) = s
scalar_of (some (object _)) = mapping

-- `document.get("actions", {})`, if it is a mapping.
abbrev pub overrides_of : Option Value → Option (Table Scalar)
overrides_of none = some []
overrides_of (some (object t)) = some t
overrides_of (some (scalar _)) = none

abbrev pub is_version : Scalar → Bool
is_version (text t) = t == schema_version
is_version _ = false

unfoldable pub wish_of : Table Value → ℕ → Bool → Wish
unfolding select
wish_of document current_time allow_expired = record {
  profile = scalar_of (select "profile" document);
  generation = scalar_of (select "generation" document);
  overrides = overrides_of (select "actions" document);
  expires_at = scalar_of (select "expires_at" document);
  configured = true;
  current_time = current_time;
  allow_expired = allow_expired;
}

module _ (clockwork : Clockwork) where
  unfoldable pub checked_document : Table Value → ℕ → Bool → Outcome Error EffectivePolicy
  unfolding known_fields wish_of effective select
  checked_document document current_time allow_expired =
      if not (known_fields document)
      then raised unknown_field
      else if not (is_version (scalar_of (select "schema_version" document)))
      then raised unsupported_schema
      else effective clockwork (wish_of document current_time allow_expired)

  abbrev pub parsed : Content → ℕ → Bool → Outcome Error EffectivePolicy
  parsed unreadable_text current_time allow_expired = raised unreadable
  parsed malformed_text current_time allow_expired = raised malformed
  parsed other_value current_time allow_expired = raised not_object
  parsed (json_object document) current_time allow_expired =
      checked_document document current_time allow_expired

  abbrev pub loaded : PolicyFile → ℕ → Bool → Outcome Error EffectivePolicy
  loaded file current_time allow_expired =
      if not file.is_regular
      then raised not_regular
      else if not file.is_owned
      then raised not_owned
      else if not (eqb (file.mode % 64) 0)
      then raised too_open
      else parsed file.content current_time allow_expired

  -- No path at all means the compatible default.
  unfoldable pub load_policy : Option PolicyFile → ℕ → Bool → Outcome Error EffectivePolicy
  unfolding checked_document migration_policy
  load_policy none current_time allow_expired = migration_policy clockwork current_time
  load_policy (some file) current_time allow_expired = loaded file current_time allow_expired

  abbrev pub expiry_field : Option String → Table Value
  expiry_field none = []
  expiry_field (some stamp) = ("expires_at", scalar (text stamp)) ∷ []

  -- The file that `replace_policy` installs, with the mode that it sets.
  abbrev pub installed : String → ℕ → Option String → PolicyFile
  installed profile generation expiry = record {
    is_regular = true;
    is_owned = true;
    mode = 384;
    content = json_object (
        ("schema_version", scalar (text schema_version))
        ∷ ("profile", scalar (text profile))
        ∷ ("generation", scalar (natural generation))
        ∷ expiry_field expiry);
  }

  abbrev pub stamp_of : Option String → Scalar
  stamp_of none = null
  stamp_of (some stamp) = text stamp

  -- The policy that is returned, and the file that holds it.
  unfoldable pub replace_policy :
      String → ℕ → Option String → ℕ → Outcome Error (EffectivePolicy × PolicyFile)
  unfolding effective
  replace_policy profile generation expires_at current_time =
      after
        (effective clockwork (record {
          profile = text profile;
          generation = natural generation;
          overrides = some [];
          expires_at = stamp_of expires_at;
          configured = true;
          current_time = current_time;
          allow_expired = false;
        }))
        (λ policy. ok (policy, installed profile generation policy.expires_at))
