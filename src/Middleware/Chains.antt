-- ===== src/Middleware/Chains.antt =====
-- The chains of a request: `StaticChainIDs` and `ChainFromPath` of middleware/common.go. The finder is
-- a parameter, as `ChainFinder` is an interface.
use quotacontrol.Prelude.{ℕ, ◌≡◌, Option, none, some, List, [], ◌∷◌, ◌++◌, arith}
use quotacontrol.Prelude.Text.{Text}
use quotacontrol.Prelude.Split.{split, Without, split_first, split_none}

-- A request has more than its path; that is all the two look at.
abbrev pub ChainFunc : Type 0
ChainFunc = Text → List ℕ

unfoldable pub static_chain_ids : List ℕ → ChainFunc
static_chain_ids chain_ids path = chain_ids

abbrev pub found_chain : Option ℕ → List ℕ
found_chain none = []
found_chain (some chain_id) = chain_id ∷ []

-- `none` of the finder is its error.
unfoldable pub chain_from_path : (Text → Option ℕ) → ChainFunc
chain_from_path find_chain path = elim (split b'/' path) [
  | (first ∷ second ∷ rest) ↦ found_chain (find_chain second)
  | _ ↦ []
]

-- For a segment without a slash: ChainFromPath finds the chain of a path that starts with the
-- segment, whether the path ends there or goes on, and of a path without a slash it finds none.
chain_from_path_lem :
    (find_chain : Text → Option ℕ) (segment rest : Text)
    → Without b'/' segment
    → (chain_from_path find_chain (b'/' ∷ segment) ≡ found_chain (find_chain segment))
      × (chain_from_path find_chain (b'/' ∷ (segment ++ b'/' ∷ rest))
          ≡ found_chain (find_chain segment))
      × (chain_from_path find_chain segment ≡ [])
unfolding chain_from_path
chain_from_path_lem find_chain segment rest plain = ground (
  arith,
  split_first b'/' [] segment tt,
  split_none b'/' segment plain,
  split_first b'/' [] (segment ++ b'/' ∷ rest) tt,
  split_first b'/' segment rest plain,
)
