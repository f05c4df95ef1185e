-- ===== src/Availability/Hosts.antt =====
-- manager/availability.py: what `_valid_host` and the split at the first dot say of a host name.
use fortifylab_archive.Availability.Routes.{
  Names, codes, codes_eq, domain_of, last_of, prepend, split_dots, starts_with, valid_host,
  valid_part,
}
use fortifylab_archive.Prelude.{
  All, Bool, Bool-cases, List, String, [], all, ap, arith, eqb, false, inl, inr, length, refl,
  subst, sym, true, ℕ, ◌++◌, ◌||◌, ◌∙◌, ◌∷◌, ◌≡◌, ◌≤◌,
}
use fortifylab_archive.Prelude.Texts.{joined}

-- The parts of a host name with dots between them.
abbrev pub dotted : List (List ℕ) → List ℕ
dotted [] = []
dotted (part ∷ []) = part
dotted (part ∷ next ∷ parts) = part ++ b'.' ∷ dotted (next ∷ parts)

abbrev pub HasNoDot : List ℕ → Type 0
HasNoDot cs = All (λ c. eqb c b'.' ≡ false) cs

-- The domain is what stands behind the first dot.
abbrev pub HasDomain : List ℕ → List ℕ → Type 0
HasDomain cs domain = (head : List ℕ) × HasNoDot head × (cs ≡ head ++ b'.' ∷ domain)

starts_with-split :
    (cs ds : List ℕ) → starts_with cs ds ≡ true → (rest : List ℕ) × (cs ≡ ds ++ rest)
unfolding starts_with
starts_with-split cs [] h = (cs, refl)
starts_with-split [] (d ∷ ds) h = absurd (cc)
starts_with-split (c ∷ cs) (d ∷ ds) h =
    let (rest, e) = starts_with-split cs ds (ground (arith, h)) in
    let same : c ≡ d = ground (arith, h) in (rest, ap (λ z. z ∷ cs) same ∙ ap (◌∷◌ d) e)

pub codes_eq_sound : (cs ds : List ℕ) → codes_eq cs ds ≡ true → cs ≡ ds
unfolding codes_eq
codes_eq_sound [] [] h = refl
codes_eq_sound [] (d ∷ ds) h = absurd (cc)
codes_eq_sound (c ∷ cs) [] h = absurd (cc)
codes_eq_sound (c ∷ cs) (d ∷ ds) h =
    let same : c ≡ d = ground (arith, h) in
    ap (λ z. z ∷ cs) same ∙ ap (◌∷◌ d) (codes_eq_sound cs ds (ground (arith, h)))

domain_of-HasDomain :
    (before rest : List ℕ) → HasDomain (before ++ b'.' ∷ rest) (domain_of (before ++ b'.' ∷ rest))
unfolding domain_of
domain_of-HasDomain [] rest = ([], tt, refl)
domain_of-HasDomain (c ∷ before) rest = elim (Bool-cases (eqb c b'.')) [
  | inl dot ↦
      let e : c ≡ b'.' = ground (arith, dot) in
      rw dot ([], tt, ap (λ z. z ∷ before ++ b'.' ∷ rest) e)
  | inr other ↦
      let (head, free, split) = domain_of-HasDomain before rest in
      rw other (c ∷ head, (other, free), ap (◌∷◌ c) split)
]

dotted-prepend : (c : ℕ) (parts : List (List ℕ)) → dotted (prepend c parts) ≡ c ∷ dotted parts
dotted-prepend c [] = refl
dotted-prepend c (part ∷ []) = refl
dotted-prepend c (part ∷ next ∷ parts) = refl

-- The split has at least one part.
dotted-split_dots :
    (cs : List ℕ)
    → (part : List ℕ) × (parts : List (List ℕ)) × (split_dots cs ≡ part ∷ parts)
      × (dotted (split_dots cs) ≡ cs)
unfolding split_dots
dotted-split_dots [] = ([], [], refl, refl)
dotted-split_dots (c ∷ cs) =
    let (part, parts, e, joined) = dotted-split_dots cs in
    elim (Bool-cases (eqb c b'.')) [
      | inl dot ↦
          let here : b'.' ≡ c = ground (arith, dot) in
          rw dot (
            [],
            split_dots cs,
            refl,
            ap (λ l. dotted ([] ∷ l)) e
                ∙ ap (◌∷◌ b'.') (ap dotted (sym e) ∙ joined)
                ∙ ap (λ z. z ∷ cs) here,
          )
      | inr other ↦
          rw other (
            c ∷ part,
            parts,
            ap (prepend c) e,
            dotted-prepend c (split_dots cs) ∙ ap (◌∷◌ c) joined,
          )
    ]

module _ (names : Names) where
  -- A label of a host name: at most 63 alphanumeric characters or hyphens, with an alphanumeric one
  -- at each end.
  pub record IsLabel (part : List ℕ) : Type 0 where
    pub short : length part ≤ 63
    pub first : ℕ
    pub behind : List ℕ
    pub begins : part ≡ first ∷ behind
    pub first_alnum : names.is_alnum first ≡ true
    pub before : List ℕ
    pub last : ℕ
    pub ends : part ≡ before ++ last ∷ []
    pub last_alnum : names.is_alnum last ≡ true
    pub plain : All (λ c. (names.is_alnum c || eqb c b'-') ≡ true) part

  -- A host name in the domain: a lower-case text that is its own host in a URL, which begins with
  -- the label and a dot.
  pub record IsHost (host label : String) (domain : List ℕ) : Type 0 where
    pub is_hostname : names.is_hostname host ≡ true
    pub is_lower : names.is_lower host ≡ true
    pub rest : List ℕ
    pub labelled : codes host ≡ codes label ++ b'.' ∷ rest
    pub short : length (codes host) ≤ 253
    pub parts : List (List ℕ)
    pub split : dotted parts ≡ codes host
    pub labels : All IsLabel parts
    pub in_domain : HasDomain (codes host) domain

  ending : (c : ℕ) (cs : List ℕ) → (before : List ℕ) × (c ∷ cs ≡ before ++ last_of c cs ∷ [])
  ending c [] = ([], refl)
  ending c (d ∷ cs) = let (before, e) = ending d cs in (c ∷ before, ap (◌∷◌ c) e)

  all-All : (p : ℕ → Bool) (cs : List ℕ) → all p cs ≡ true → All (λ c. p c ≡ true) cs
  unfolding all
  all-All p [] h = tt
  all-All p (c ∷ cs) h = (ground (arith, h), all-All p cs (ground (arith, h)))

  valid_part-IsLabel : (part : List ℕ) → valid_part names part ≡ true → IsLabel part
  valid_part-IsLabel [] h = absurd (cc)
  valid_part-IsLabel (c ∷ cs) h =
      let (before, e) = ending c cs in
      record {
        short = ground (arith, h);
        first = c;
        behind = cs;
        begins = refl;
        first_alnum = ground (arith, h);
        before = before;
        last = last_of c cs;
        ends = e;
        last_alnum = ground (arith, h);
        plain = all-All (λ d. names.is_alnum d || eqb d b'-') (c ∷ cs) (ground (arith, h));
      }

  valid_parts-IsLabel :
      (parts : List (List ℕ)) → all (valid_part names) parts ≡ true → All IsLabel parts
  unfolding all
  valid_parts-IsLabel [] h = tt
  valid_parts-IsLabel (p ∷ parts) h =
      (valid_part-IsLabel p (ground (arith, h)), valid_parts-IsLabel parts (ground (arith, h)))

  pub valid_host-IsHost :
      (host label : String)
      → valid_host names host label ≡ true
      → IsHost host label (domain_of (codes host))
  unfolding valid_host
  valid_host-IsHost host label h =
      let (rest, e) =
        starts_with-split (codes host) (codes label ++ b'.' ∷ []) (ground (arith, h)) in
      let (_, _, _, joined) = dotted-split_dots (codes host) in
      let labelled : codes host ≡ codes label ++ b'.' ∷ rest = e ∙ regroup (codes label) rest in
      record {
        is_hostname = ground (arith, h);
        is_lower = ground (arith, h);
        rest = rest;
        labelled = labelled;
        short = ground (arith, h);
        parts = split_dots (codes host);
        split = joined;
        labels = valid_parts-IsLabel (split_dots (codes host)) (ground (arith, h));
        in_domain =
            subst (λ cs. HasDomain cs (domain_of cs)) (sym labelled)
              (domain_of-HasDomain (codes label) rest);
      }
    where
      regroup : (cs rest : List ℕ) → (cs ++ b'.' ∷ []) ++ rest ≡ cs ++ b'.' ∷ rest
      regroup [] rest = refl
      regroup (c ∷ cs) rest = ap (◌∷◌ c) (regroup cs rest)
