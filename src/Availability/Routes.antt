-- ===== src/Availability/Routes.antt =====
-- manager/availability.py: `_endpoints`, `_valid_host` and `_approved_routes`. What Python's `str`
-- and `urlsplit` say of a host name is a parameter.
use Prim.Native.Char.{code}
use fortifylab_archive.Availability.Probe.{ObservedRoute}
use fortifylab_archive.Prelude.{
  Bool, List, Option, String, [], all, eqb, false, if◌then◌else◌, leb, length, none, some, true, ℕ,
  ◌&&◌, ◌++◌, ◌==◌, ◌||◌, ◌∷◌,
}
use fortifylab_archive.Prelude.Table.{Table, select}
use fortifylab_archive.Registry.Components.{Component, Registry}

pub record Endpoint : Type 0 where
  pub id : String
  pub display_name : String
  pub host_label : String

-- `urlsplit("https://" + host + "/").hostname == host`, `host == host.lower()`, `str.isalnum`,
-- and the code points of a text.
pub record Names : Type 0 where
  pub is_hostname : String → Bool
  pub is_lower : String → Bool
  pub is_alnum : ℕ → Bool

abbrev pub codes : String → List ℕ
codes String.[] = []
codes (String.◌∷◌ c s) = code c ∷ codes s

-- `host.split(".")`, and what stands behind the first dot.
abbrev pub prepend : ℕ → List (List ℕ) → List (List ℕ)
prepend c [] = (c ∷ []) ∷ []
prepend c (part ∷ parts) = (c ∷ part) ∷ parts

unfoldable pub split_dots : List ℕ → List (List ℕ)
split_dots [] = [] ∷ []
split_dots (c ∷ cs) = let rest = split_dots cs in if eqb c b'.' then [] ∷ rest else prepend c rest

unfoldable pub domain_of : List ℕ → List ℕ
domain_of [] = []
domain_of (c ∷ cs) = let rest = domain_of cs in if eqb c b'.' then cs else rest

unfoldable pub codes_eq : List ℕ → List ℕ → Bool
codes_eq [] [] = true
codes_eq [] (_ ∷ _) = false
codes_eq (_ ∷ _) [] = false
codes_eq (c ∷ cs) (d ∷ ds) = eqb c d && codes_eq cs ds

unfoldable pub starts_with : List ℕ → List ℕ → Bool
starts_with cs [] = true
starts_with [] (d ∷ ds) = false
starts_with (c ∷ cs) (d ∷ ds) = eqb c d && starts_with cs ds

abbrev pub last_of : ℕ → List ℕ → ℕ
last_of c [] = c
last_of c (d ∷ ds) = last_of d ds

abbrev pub web_endpoint : Component → List Endpoint → List Endpoint
web_endpoint c rest = elim c.host_label [
  | none ↦ rest
  | some label ↦ record { id = c.id; display_name = c.display_name; host_label = label } ∷ rest
]

unfoldable pub web_endpoints : Table Component → List Endpoint
web_endpoints [] = []
web_endpoints ((_, c) ∷ t) = web_endpoint c (web_endpoints t)

unfoldable pub endpoints : Registry → List Endpoint
unfolding web_endpoints
endpoints registry =
    record { id = "manager"; display_name = "Fortify Lab Manager"; host_label = "lab" }
    ∷ web_endpoints registry.components

-- The dictionary of the endpoints: the last of two with one identifier counts.
unfoldable pub find_endpoint : String → List Endpoint → Option Endpoint
find_endpoint id [] = none
find_endpoint id (e ∷ es) = elim (find_endpoint id es) [
  | some later ↦ some later
  | none ↦ if e.id == id then some e else none
]

module _ (names : Names) where
  abbrev pub valid_part : List ℕ → Bool
  valid_part [] = false
  valid_part (c ∷ cs) =
      leb (length (c ∷ cs)) 63
      && names.is_alnum c
      && names.is_alnum (last_of c cs)
      && all (λ d. names.is_alnum d || eqb d b'-') (c ∷ cs)

  unfoldable pub valid_host : String → String → Bool
  unfolding split_dots starts_with all
  valid_host host label =
      names.is_hostname host
      && names.is_lower host
      && starts_with (codes host) (codes label ++ b'.' ∷ [])
      && leb (length (codes host)) 253
      && all valid_part (split_dots (codes host))

  unfoldable pub manager_route : List ObservedRoute → Option ObservedRoute
  unfolding valid_host
  manager_route [] = none
  manager_route (r ∷ rs) =
      let rest = manager_route rs in
      if r.endpoint_id == "manager" && valid_host r.host "lab" then some r else rest

  -- The tests of the loop, for a route whose endpoint is known and not yet approved.
  unfoldable pub acceptable : List ℕ → ObservedRoute → Endpoint → Bool
  unfolding valid_host codes_eq domain_of
  acceptable domain route endpoint =
      route.tls
      && valid_host route.host endpoint.host_label
      && codes_eq (domain_of (codes route.host)) domain

  abbrev pub admits : List ℕ → ObservedRoute → Option Endpoint → Option ObservedRoute → Bool
  admits domain route none approved = false
  admits domain route (some endpoint) (some _) = false
  admits domain route (some endpoint) none = acceptable domain route endpoint

  unfoldable pub approve_routes :
      List Endpoint → List ℕ → Table ObservedRoute → List ObservedRoute → Table ObservedRoute
  unfolding find_endpoint select acceptable
  approve_routes es domain approved [] = approved
  approve_routes es domain approved (r ∷ rs) =
      approve_routes es domain
        (if admits domain r (find_endpoint r.endpoint_id es) (select r.endpoint_id approved)
          then approved ++ (r.endpoint_id, r) ∷ []
          else approved)
        rs

  -- `none` stands for an observer that raises.
  abbrev pub approved_by :
      List Endpoint → List ObservedRoute → Option ObservedRoute → Table ObservedRoute
  approved_by es observed none = []
  approved_by es observed (some manager) =
      approve_routes es (domain_of (codes manager.host)) [] observed

  unfoldable pub approved_routes :
      Registry → Option (List ObservedRoute) → Option (Table ObservedRoute)
  unfolding endpoints manager_route approve_routes
  approved_routes registry none = none
  approved_routes registry (some observed) =
      some (approved_by (endpoints registry) observed (manager_route observed))
