-- ===== src/Api/Node.antt =====
-- pkg/apis/kosmos/v1alpha1/clusternode_types.go: a node of a member cluster.
use Prim.Native.Char.{code}
use kosmos.Base.{
  ℕ, ◌+◌, String, Bool, true, false, ◌&&◌, List, [], ◌∷◌, map, leb, nat_beq, any, if◌then◌else◌,
}
use kosmos.Api.Cluster.{role_gateway}

pub record ClusterNode : Type 0 where
  pub name : String
  pub cluster_name : String
  pub node_name : String
  pub pod_cidrs : List String
  pub ip : String
  pub ip6 : String
  pub roles : List String
  pub interface_name : String

-- The code points of a text.
abbrev pub codes : String → List ℕ
codes String.[] = []
codes (String.◌∷◌ c s) = code c ∷ codes s

fold_code : ℕ → ℕ
fold_code c = if leb b'A' c && leb c b'Z' then c + 32 else c

codes_beq : List ℕ → List ℕ → Bool
codes_beq [] [] = true
codes_beq (x ∷ xs) (y ∷ ys) = nat_beq x y && codes_beq xs ys
codes_beq _ _ = false

-- `strings.EqualFold`, for a text none of whose letters has a fold outside ASCII (only `k` and `s`
-- have one), as the only role of the program has none.
unfoldable pub equal_fold : String → String → Bool
unfolding fold_code codes_beq
equal_fold s t = codes_beq (map fold_code (codes s)) (map fold_code (codes t))

unfoldable pub has_role : List String → String → Bool
unfolding equal_fold
has_role roles r = any (λ role. equal_fold r role) roles

unfoldable pub is_gateway : ClusterNode → Bool
unfolding has_role
is_gateway n = has_role n.roles role_gateway
