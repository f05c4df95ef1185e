-- ===== src/Operation/Identifier.antt =====
-- manager/operation_engine.py: `IDENTIFIER`, the pattern `^[a-z][a-z0-9-]{0,63}$` of component ids.
use Prim.Native.Char.{code}
use fortifylab_archive.Prelude.{
  Bool, List, String, [], all, eqb, false, leb, length, refl, true, ℕ, ◌&&◌, ◌||◌, ◌∷◌, ◌≡◌,
}

abbrev codes : String → List ℕ
codes String.[] = []
codes (String.◌∷◌ c s) = code c ∷ codes s

is_lower : ℕ → Bool
is_lower c = leb b'a' c && leb c b'z'

is_tail : ℕ → Bool
unfolding is_lower
is_tail c = is_lower c || (leb b'0' c && leb c b'9') || eqb c b'-'

matches : List ℕ → Bool
unfolding is_lower is_tail all
matches [] = false
matches (c ∷ cs) = is_lower c && all is_tail cs && leb (length cs) 63

unfoldable pub is_identifier : String → Bool
unfolding matches
is_identifier s = matches (codes s)

identifiers :
    (is_identifier "scan-central" ≡ true)
    × (is_identifier "1a" ≡ false)
    × (is_identifier "" ≡ false)
unfolding is_identifier
identifiers = (refl, refl, refl)
