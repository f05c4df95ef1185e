-- ===== src/Registry/Counting.antt =====
-- manager/component_registry.py: what the counters and the consumer lists of Kahn's algorithm hold.
use fortifylab_archive.Prelude.{
  Bool-cases, List, String, [], arith, contains, contains-append, eq_iff, false, if◌then◌else◌, inl,
  inr, not, refl, suc, true, ℕ, ◌&&◌, ◌++◌, ◌+◌, ◌<◌, ◌==◌, ◌∷◌, ◌≡◌,
}
use fortifylab_archive.Prelude.Table.{select, select-put}
use fortifylab_archive.Registry.Order.{Edge, Graph, count_of, link, link_all, listed, zeroed}

-- Occurrences of a text in a list, and of edges by their ends.
unfoldable pub occurrences : String → List String → ℕ
occurrences x [] = 0
occurrences x (y ∷ ys) = let rest = occurrences x ys in if y == x then suc rest else rest

unfoldable pub edges_between : String → String → List Edge → ℕ
edges_between c d [] = 0
edges_between c d ((a, b) ∷ es) =
    let rest = edges_between c d es in if a == c && b == d then suc rest else rest

-- Edges of `c` whose dependency is not yet placed.
unfoldable pub missing : List String → String → List Edge → ℕ
missing placed c [] = 0
missing placed c ((a, b) ∷ es) =
    let rest = missing placed c es in if a == c && not (contains placed b) then suc rest else rest

pub occurrences-append :
    (x : String) (xs ys : List String)
    → occurrences x (xs ++ ys) ≡ occurrences x xs + occurrences x ys
unfolding occurrences
occurrences-append x [] ys = omega arith
occurrences-append x (y ∷ xs) ys = ground (arith, occurrences-append x xs ys)

indegree-link :
    (e : Edge) (g : Graph) (c : String)
    → count_of (link e g).indegree c ≡ count_of g.indegree c + missing [] c (e ∷ [])
unfolding link missing contains
indegree-link (a, b) g c =
    ground (arith, select-put a c (count_of g.indegree a + 1) g.indegree, eq_iff a c)

consumers-link :
    (e : Edge) (g : Graph) (c d : String)
    → occurrences c (listed (link e g).consumers d)
      ≡ occurrences c (listed g.consumers d) + edges_between c d (e ∷ [])
unfolding link edges_between occurrences
consumers-link (a, b) g c d = ground (
  arith,
  select-put b d (listed g.consumers b ++ a ∷ []) g.consumers,
  eq_iff b d,
  occurrences-append c (listed g.consumers b) (a ∷ []),
)

missing-cons :
    (placed : List String) (c : String) (e : Edge) (es : List Edge)
    → missing placed c (e ∷ es) ≡ missing placed c (e ∷ []) + missing placed c es
unfolding missing
missing-cons placed c (a, b) es = ground arith

edges_between-cons :
    (c d : String) (e : Edge) (es : List Edge)
    → edges_between c d (e ∷ es) ≡ edges_between c d (e ∷ []) + edges_between c d es
unfolding edges_between
edges_between-cons c d (a, b) es = ground arith

pub indegree-link_all :
    (es : List Edge) (g : Graph) (c : String)
    → count_of (link_all es g).indegree c ≡ count_of g.indegree c + missing [] c es
unfolding link_all
indegree-link_all [] g c = unfold missing in omega arith
indegree-link_all (e ∷ es) g c =
    omega (arith, indegree-link_all es (link e g) c, indegree-link e g c, missing-cons [] c e es)

pub consumers-link_all :
    (es : List Edge) (g : Graph) (c d : String)
    → occurrences c (listed (link_all es g).consumers d)
      ≡ occurrences c (listed g.consumers d) + edges_between c d es
unfolding link_all
consumers-link_all [] g c d = unfold edges_between in omega arith
consumers-link_all (e ∷ es) g c d = omega (
  arith,
  consumers-link_all es (link e g) c d,
  consumers-link e g c d,
  edges_between-cons c d e es,
)

pub indegree-zeroed : (ks : List String) (c : String) → count_of (zeroed ks).indegree c ≡ 0
unfolding zeroed select
indegree-zeroed [] c = refl
indegree-zeroed (k ∷ ks) c = ground (arith, indegree-zeroed ks c)

pub consumers-zeroed : (ks : List String) (d : String) → listed (zeroed ks).consumers d ≡ []
unfolding zeroed select
consumers-zeroed [] d = refl
consumers-zeroed (k ∷ ks) d = ground (arith, consumers-zeroed ks d)

-- To place one more component lowers what its consumers miss by the edges between them.
pub missing-snoc :
    (placed : List String) (c d : String) (es : List Edge)
    → contains placed d ≡ false
    → missing placed c es ≡ missing (placed ++ d ∷ []) c es + edges_between c d es
unfolding missing edges_between contains
missing-snoc placed c d [] h = omega arith
missing-snoc placed c d ((a, b) ∷ es) h =
    ground (
      arith,
      missing-snoc placed c d es h,
      contains-append placed (d ∷ []) b,
      eq_iff d b,
      eq_iff b d,
    )

-- Nothing is missing exactly if every dependency is placed; here the direction that is used.
pub missing-zero :
    (placed : List String) (c d : String) (es : List Edge)
    → missing placed c es ≡ 0
    → 0 < edges_between c d es
    → contains placed d ≡ true
unfolding missing edges_between
missing-zero placed c d [] h p = absurd (omega arith)
missing-zero placed c d ((a, b) ∷ es) h p = ground (arith, eq_iff b d, missing-zero placed c d es)

-- What is missing is a dependency that is not placed.
pub missing-pos :
    (placed : List String) (c : String) (es : List Edge)
    → 0 < missing placed c es
    → (d : String) × (0 < edges_between c d es) × (contains placed d ≡ false)
unfolding missing edges_between
missing-pos placed c [] h = absurd (omega arith)
missing-pos placed c ((a, b) ∷ es) h = elim (Bool-cases (a == c && not (contains placed b))) [
  | inl here ↦ (b, ground (arith, eq_iff b b), ground arith)
  | inr other ↦
      let (d, between, open_) = missing-pos placed c es (ground arith) in (d, ground arith, open_)
]
