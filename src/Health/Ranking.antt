-- ===== src/Health/Ranking.antt =====
-- manager/health.py: the ranking of states takes the worst of them, whatever their order. The orders
-- of severity and gravity are tables, against the lists of precedence that the code searches.
use mathlib.Core.Quot
use fortifylab_archive.Health.Dimensions.{rank_state, states_of}
use fortifylab_archive.Health.Document.{aggregate, item_states}
use fortifylab_archive.Health.Evaluation.{Item}
use fortifylab_archive.Health.Evidence.{Evidence}
use fortifylab_archive.Health.States.{
  HealthState, aggregate_precedence, blocked, degraded, direct_precedence, first_of, healthy,
  is_state, misconfigured, stale, starting, stopped, unhealthy, unknown, unreachable,
}
use fortifylab_archive.Prelude.{
  List, [], any, ap, arith, if◌then◌else◌, ltb, refl, sym, ℕ, ◌∙◌, ◌∷◌, ◌≡◌,
}
use mathlib.Core.HLevel.{hedberg}
use mathlib.Core.Quot.{Quot}

-- How bad a state is for `_rank_state`; blocked is no state of direct evidence.
abbrev pub severity : HealthState → ℕ
severity healthy = 0
severity blocked = 0
severity degraded = 1
severity starting = 2
severity stale = 3
severity unknown = 4
severity unreachable = 5
severity stopped = 6
severity misconfigured = 7
severity unhealthy = 8

-- How bad a state of a subject is for `_aggregate`.
abbrev pub gravity : HealthState → ℕ
gravity healthy = 0
gravity blocked = 1
gravity degraded = 2
gravity starting = 3
gravity stopped = 4
gravity stale = 5
gravity unknown = 6
gravity unreachable = 7
gravity misconfigured = 8
gravity unhealthy = 9

abbrev pub worse : (HealthState → ℕ) → HealthState → HealthState → HealthState
worse weight a b = if ltb (weight b) (weight a) then a else b

pub direct-cons :
    (s : HealthState) (ss : List HealthState)
    → first_of direct_precedence (s ∷ ss) ≡ worse severity s (first_of direct_precedence ss)
unfolding first_of any
direct-cons healthy ss = ground arith
direct-cons starting ss = ground arith
direct-cons degraded ss = ground arith
direct-cons blocked ss = ground arith
direct-cons misconfigured ss = ground arith
direct-cons stopped ss = ground arith
direct-cons unreachable ss = ground arith
direct-cons unhealthy ss = ground arith
direct-cons unknown ss = ground arith
direct-cons stale ss = ground arith

pub aggregate-cons :
    (s : HealthState) (ss : List HealthState)
    → first_of aggregate_precedence (s ∷ ss) ≡ worse gravity s (first_of aggregate_precedence ss)
unfolding first_of any
aggregate-cons healthy ss = ground arith
aggregate-cons starting ss = ground arith
aggregate-cons degraded ss = ground arith
aggregate-cons blocked ss = ground arith
aggregate-cons misconfigured ss = ground arith
aggregate-cons stopped ss = ground arith
aggregate-cons unreachable ss = ground arith
aggregate-cons unhealthy ss = ground arith
aggregate-cons unknown ss = ground arith
aggregate-cons stale ss = ground arith

-- The abstract view of a list of states: which states occur.
abbrev SameStates : List HealthState → List HealthState → Type 0
SameStates xs ys = (s : HealthState) → any (is_state s) xs ≡ any (is_state s) ys

abbrev pub StateSet : Type 0
StateSet = Quot SameStates

abbrev pub seen : List HealthState → StateSet
seen states = Quot.mk states

first_of-SameStates :
    (candidates xs ys : List HealthState)
    → SameStates xs ys
    → first_of candidates xs ≡ first_of candidates ys
unfolding first_of
first_of-SameStates [] xs ys same = refl
first_of-SameStates (c ∷ cs) xs ys same = ground (arith, same c, first_of-SameStates cs xs ys same)

HealthState-discrete : Discrete HealthState
HealthState-discrete = hlevel

HealthState-set : IsSet HealthState
HealthState-set = hedberg HealthState-discrete

-- The worst of the states, healthy if there is none.
worst : (HealthState → ℕ) → List HealthState → HealthState
worst weight [] = healthy
worst weight (s ∷ ss) = worse weight s (worst weight ss)

worst-first_of :
    (candidates : List HealthState) (weight : HealthState → ℕ)
    → first_of candidates [] ≡ healthy
    → ((s : HealthState) (ss : List HealthState)
        → first_of candidates (s ∷ ss) ≡ worse weight s (first_of candidates ss))
    → (ss : List HealthState) → worst weight ss ≡ first_of candidates ss
unfolding worst
worst-first_of candidates weight none_seen step [] = sym none_seen
worst-first_of candidates weight none_seen step (s ∷ ss) =
    ap (worse weight s) (worst-first_of candidates weight none_seen step ss) ∙ sym (step s ss)

direct-worst : (ss : List HealthState) → worst severity ss ≡ first_of direct_precedence ss
unfolding first_of any
direct-worst = worst-first_of direct_precedence severity refl direct-cons

aggregate-worst : (ss : List HealthState) → worst gravity ss ≡ first_of aggregate_precedence ss
unfolding first_of any
aggregate-worst = worst-first_of aggregate_precedence gravity refl aggregate-cons

-- The worst of a set of states: neither order nor repetition counts.
pub worst_severity : StateSet → HealthState
worst_severity = Quot.lift HealthState-set (worst severity) (λ xs ys same.
    direct-worst xs ∙ first_of-SameStates direct_precedence xs ys same ∙ sym (direct-worst ys))

pub worst_gravity : StateSet → HealthState
worst_gravity = Quot.lift HealthState-set (worst gravity) (λ xs ys same.
    aggregate-worst xs
    ∙ first_of-SameStates aggregate_precedence xs ys same
    ∙ sym (aggregate-worst ys))

-- The state that `_rank_state` gives to evidence is the worst, by the order of severity, of the set
-- of the states that occur in it, and the state that `_aggregate` gives to the items is the worst,
-- by the order of gravity, of the set of theirs; with none of them it is healthy.
pub ranking_refines :
    (es : List Evidence) (items : List Item)
    → (rank_state es ≡ worst_severity (seen (states_of es)))
      × (aggregate items ≡ worst_gravity (seen (item_states items)))
unfolding worst_severity worst_gravity rank_state aggregate
ranking_refines es items =
    (sym (direct-worst (states_of es)), sym (aggregate-worst (item_states items)))
