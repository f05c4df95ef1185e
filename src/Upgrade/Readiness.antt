-- ===== src/Upgrade/Readiness.antt =====
-- manager/profile_upgrade.py: what the checks of an observation and of a transition establish.
use fortifylab_archive.Prelude.{
  All, Bool, Bool-cases, List, Option, Option-cases, String, [], all, ap, arith, contains, eq_iff,
  false, inl, inr, keep, none, refl, some, subst, true, ℕ, ◌==◌, ◌∷◌, ◌≡◌, ◌≤◌,
}
use fortifylab_archive.Prelude.Exec.{ok, ok_subst}
use fortifylab_archive.Prelude.Table.{Table, select}
use fortifylab_archive.Registry.Components.{Registry, component_ids, keys}
use fortifylab_archive.Upgrade.Evidence.{
  Observation, Profile, Transition, all_ready, falls_short, is_proven, is_text, lacks_capacity,
  observation_reason, same_set, same_table, the_only, transition_of, validated_observation,
  versions_of,
}
use fortifylab_archive.Upgrade.Types.{Backup}

-- An observation that allows an upgrade.
pub record IsReady (registry : Registry) (source target : Profile) (transition : Transition)
    (observed : Observation) : Type 0 where
  pub profile : observed.profile_id ≡ some source.id
  pub versions : observed.versions ≡ (versions_of source).versions
  pub capacity :
      All (λ e. (n : ℕ) × (select e.0 observed.capacity ≡ some n) × (e.1 ≤ n)) target.capacity
  pub health : select "state" observed.health ≡ some "healthy"
  pub dependencies :
      (c : String) → contains (keys observed.dependencies) c ≡ contains (component_ids registry) c
  pub states : All (λ e. e.1 ≡ "ready") observed.dependencies
  pub backup :
      transition.backup_required ≡ true
      → (b : Backup) × (observed.backup ≡ some b)
        × (b.profile_id ≡ some source.id)
        × (b.complete ≡ true)
        × (b.verified ≡ true)

pub is_text_lem : (o : Option String) (s : String) → is_text o s ≡ true → o ≡ some s
is_text_lem none s h = absurd (cc)
is_text_lem (some t) s h = ap some ((eq_iff t s).0 h)

same_table_lem : (t u : Table String) → same_table t u ≡ true → t ≡ u
unfolding same_table
same_table_lem [] [] h = refl
same_table_lem [] (_ ∷ _) h = absurd (cc)
same_table_lem (_ ∷ _) [] h = absurd (cc)
same_table_lem ((k, v) ∷ t) ((j, w) ∷ u) h =
    ground (arith, eq_iff k j, eq_iff v w, same_table_lem t u)

reaches :
    (o : Option ℕ) (value : ℕ) → falls_short o value ≡ false → (n : ℕ) × (o ≡ some n) × (value ≤ n)
reaches none value h = absurd (cc)
reaches (some n) value h = (n, refl, ground arith)

lacks_capacity_lem :
    (capacity needed : Table ℕ)
    → lacks_capacity capacity needed ≡ false
    → All (λ e. (n : ℕ) × (select e.0 capacity ≡ some n) × (e.1 ≤ n)) needed
unfolding lacks_capacity
lacks_capacity_lem capacity [] h = tt
lacks_capacity_lem capacity ((key, value) ∷ needed) h = (
  reaches (select key capacity) value (ground arith),
  lacks_capacity_lem capacity needed (ground arith),
)

all_ready_lem : (t : Table String) → all_ready t ≡ true → All (λ e. e.1 ≡ "ready") t
unfolding all_ready
all_ready_lem [] h = tt
all_ready_lem ((k, v) ∷ t) h = ((eq_iff v "ready").0 (ground arith), all_ready_lem t (ground arith))

all-contains :
    (p : String → Bool) (xs : List String) (c : String)
    → all p xs ≡ true
    → contains xs c ≡ true
    → p c ≡ true
unfolding all contains
all-contains p [] c h k = absurd (cc)
all-contains p (x ∷ xs) c h k = elim (Bool-cases (x == c)) [
  | inl same ↦ subst (λ z. p z ≡ true) ((eq_iff x c).0 same) (ground arith)
  | inr other ↦ all-contains p xs c (ground arith) (ground arith)
]

pub same_set_lem :
    (xs ys : List String) (c : String) → same_set xs ys ≡ true → contains xs c ≡ contains ys c
same_set_lem xs ys c h =
    ground (arith, all-contains (contains ys) xs c, all-contains (contains xs) ys c)

is_proven_lem :
    (o : Option Backup) (id : String)
    → is_proven o id ≡ true
    → (b : Backup) × (o ≡ some b)
      × (b.profile_id ≡ some id)
      × (b.complete ≡ true)
      × (b.verified ≡ true)
is_proven_lem none id h = absurd (cc)
is_proven_lem (some b) id h =
    (b, refl, is_text_lem b.profile_id id (ground arith), ground arith, ground arith)

pub observation_reason-IsReady :
    (registry : Registry) (source target : Profile) (transition : Transition)
    (observed : Observation)
    → observation_reason registry source target transition observed ≡ none
    → IsReady registry source target transition observed
unfolding observation_reason
observation_reason-IsReady registry source target transition observed h = record {
  profile = is_text_lem observed.profile_id source.id (ground arith);
  versions = same_table_lem observed.versions (versions_of source).versions (ground arith);
  capacity = lacks_capacity_lem observed.capacity target.capacity (ground arith);
  health = is_text_lem (select "state" observed.health) "healthy" (ground arith);
  dependencies =
      λ c. same_set_lem (keys observed.dependencies) (component_ids registry) c (ground arith);
  states = all_ready_lem observed.dependencies (ground arith);
  backup = λ required. is_proven_lem observed.backup source.id (ground arith);
}

pub validated_observation-ok :
    (registry : Registry) (source target : Profile) (transition : Transition)
    (observation : Option Observation) {observed : Observation}
    → validated_observation registry source target transition observation ≡ ok observed
    → (observation ≡ some observed) × IsReady registry source target transition observed
unfolding validated_observation
validated_observation-ok registry source target transition none h = absurd (cc)
validated_observation-ok registry source target transition (some o) h =
    elim (Option-cases (observation_reason registry source target transition o)) [
      | inl fine ↦
          let e = rw fine at h in
          (
            ap some (ok_subst (λ v. o ≡ v) e refl),
            ok_subst (λ v. IsReady registry source target transition v) e
                (observation_reason-IsReady registry source target transition o fine),
          )
      | inr (reason, bad) ↦ let e = rw bad at h in absurd (cc)
    ]

the_only_lem : (ts : List Transition) {t : Transition} → the_only ts ≡ ok t → ts ≡ t ∷ []
the_only_lem [] h = absurd (cc)
the_only_lem (t ∷ []) h = ok_subst (λ v. ◌≡◌ {A = List Transition} (t ∷ []) (v ∷ [])) h refl
the_only_lem (t ∷ u ∷ ts) h = absurd (cc)

pub transition_of-ok :
    (target : Profile) (source_id : String) {t : Transition}
    → transition_of target source_id ≡ ok t
    → (contains target.allowed_sources source_id ≡ true)
      × (keep (λ u. u.source == source_id) target.transitions ≡ t ∷ [])
unfolding transition_of
transition_of-ok target source_id h =
    elim (Bool-cases (contains target.allowed_sources source_id)) [
      | inl allowed ↦ (allowed, the_only_lem _ (rw allowed at h))
      | inr refused ↦ let e = rw refused at h in absurd (cc)
    ]
