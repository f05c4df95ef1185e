-- ===== src/Health/Impact.antt =====
-- manager/health.py: the impact downstream is the inverse of the blame upstream.
use fortifylab_archive.Health.Document.{
  Engine, EnvironmentHealth, blames, document, evaluate_all, ids_of, with_impact,
}
use fortifylab_archive.Health.Evaluation.{Item}
use fortifylab_archive.Health.Evidence.{Evidence}
use fortifylab_archive.Health.Subjects.{subjects}
use fortifylab_archive.Prelude.{
  All, Any, Bool-cases, List, String, [], any-Any, arith, contains, eq_iff, inl, inr, keep, true, ℕ,
  ◌==◌, ◌↔◌, ◌∷◌, ◌≡◌,
}
use fortifylab_archive.Prelude.Exec.{after-eq-ok, ok, ok_subst}
use fortifylab_archive.Prelude.Texts.{contains-sorted_texts}

-- A subject whose evidence was not obtained because of the subject `id`.
abbrev pub IsBlockedBy : String → Item → Type 0
IsBlockedBy id consumer = Any (λ e. contains e.blocked_by id ≡ true) consumer.evidence

contains-ids_of :
    (id c : String) (items : List Item)
    → (contains (ids_of (keep (blames id) items)) c ≡ true)
      ↔ Any (λ j. (j.id ≡ c) × IsBlockedBy id j) items
unfolding ids_of keep contains
contains-ids_of id c [] = (λ h. absurd (cc), λ h. elim h [ ])
contains-ids_of id c (j ∷ js) =
    let blamed = any-Any (λ (e : Evidence). contains e.blocked_by id) j.evidence in
    let rest = contains-ids_of id c js in
    elim (Bool-cases (blames id j)) [
      | inl blame ↦ rw blame (
        λ h. elim (Bool-cases (j.id == c)) [
          | inl same ↦ inl ((eq_iff j.id c).0 same, blamed.0 blame)
          | inr other ↦ inr (rest.0 (ground arith))
        ],
        λ h. elim h [
          | inl (same, _) ↦ ground (arith, eq_iff j.id c)
          | inr later ↦ ground (arith, rest.1 later)
        ],
      )
      | inr clear ↦ rw clear (
        λ h. inr (rest.0 h),
        λ h. elim h [ inl (_, p) ↦ absurd (ground (arith, blamed.1 p)) | inr later ↦ rest.1 later ],
      )
    ]

Any-with_impact :
    (P : String → List Evidence → Type 0) (known is : List Item)
    → Any (λ j. P j.id j.evidence) is ↔ Any (λ j. P j.id j.evidence) (with_impact known is)
unfolding with_impact
Any-with_impact P known [] = (λ h. h, λ h. h)
Any-with_impact P known (i ∷ is) = (
  λ h. elim h [ inl p ↦ inl p | inr r ↦ inr ((Any-with_impact P known is).0 r) ],
  λ h. elim h [ inl p ↦ inl p | inr r ↦ inr ((Any-with_impact P known is).1 r) ],
)

with_impact-inverse :
    (known is : List Item) (c : String)
    → All
        (λ i.
          (contains i.downstream_impact c ≡ true)
          ↔ Any (λ j. (j.id ≡ c) × IsBlockedBy i.id j) (with_impact known known))
        (with_impact known is)
unfolding with_impact
with_impact-inverse known [] c = tt
with_impact-inverse known (i ∷ is) c = (
  let P = λ (id : String) (es : List Evidence).
        (id ≡ c) × Any (λ (e : Evidence). contains e.blocked_by i.id ≡ true) es in
      let listed = contains-ids_of i.id c known in
      let kept = Any-with_impact P known known in
      rw (contains-sorted_texts (ids_of (keep (blames i.id) known)) c)
        (λ h. kept.0 (listed.0 h), λ h. listed.1 (kept.1 h)),
  with_impact-inverse known is c,
)

-- In a document, the impact of a subject on others has exactly the identifiers of the subjects with
-- evidence that names it as the cause for not being obtained.
pub document-inverse :
    (engine : Engine) (now : ℕ) (d : EnvironmentHealth) (c : String)
    → document engine now ≡ ok d
    → All
        (λ i.
          (contains i.downstream_impact c ≡ true)
          ↔ Any (λ j. (j.id ≡ c) × IsBlockedBy i.id j) d.items)
        d.items
unfolding document
document-inverse engine now d c h =
    let (ss, _, h') = after-eq-ok (subjects engine.registry) _ h in
    let (items, evaluated, h'') = after-eq-ok (evaluate_all engine now ss []) _ h' in
    ok_subst
      (λ d.
        All
          (λ i.
            (contains i.downstream_impact c ≡ true)
            ↔ Any (λ j. (j.id ≡ c) × IsBlockedBy i.id j) d.items)
          d.items)
      h'' (with_impact-inverse items items c)
