-- ===== src/RunnerHelper/Options.antt =====
-- The enumerations of exp/common/runner_helper.py. Its App is that of runner_helper2.py.
use fgnn_artifacts.Prelude.{
  ℕ, ◌-◌, ◌≡◌, refl, ◌⊎◌, inl, inr, ◌+◌, String, Bool, ◌&&◌, none, some, List, [], ◌∷◌, get_elem?,
  leb, ltb, if◌then◌else◌, Result, ok, raise, index_error,
}

pub data System : Type 0 where
  samgraph dgl : System

pub System-cases : (s : System) → (s ≡ samgraph) ⊎ (s ≡ dgl)
System-cases samgraph = inl refl
System-cases dgl = inr refl

abbrev pub system_name : System → String
system_name samgraph = "samgraph"
system_name dgl = "dgl"

pub data CachePolicy : Type 0 where
  cache_by_degree cache_by_heuristic cache_by_presample cache_by_degree_hop
        cache_by_presample_static cache_by_fake_optimal dynamic_cache cache_by_random
        cache_by_presample_1 cache_by_presample_2 cache_by_presample_3 cache_by_presample_4
        cache_by_presample_5 cache_by_presample_6 cache_by_presample_max no_cache :
      CachePolicy

abbrev pub policy_value : CachePolicy → ℕ
policy_value cache_by_degree = 0
policy_value cache_by_heuristic = 1
policy_value cache_by_presample = 2
policy_value cache_by_degree_hop = 3
policy_value cache_by_presample_static = 4
policy_value cache_by_fake_optimal = 5
policy_value dynamic_cache = 6
policy_value cache_by_random = 7
policy_value cache_by_presample_1 = 11
policy_value cache_by_presample_2 = 12
policy_value cache_by_presample_3 = 13
policy_value cache_by_presample_4 = 14
policy_value cache_by_presample_5 = 15
policy_value cache_by_presample_6 = 16
policy_value cache_by_presample_max = 17
policy_value no_cache = 20

-- `self.name`
abbrev pub policy_name : CachePolicy → String
policy_name cache_by_degree = "cache_by_degree"
policy_name cache_by_heuristic = "cache_by_heuristic"
policy_name cache_by_presample = "cache_by_presample"
policy_name cache_by_degree_hop = "cache_by_degree_hop"
policy_name cache_by_presample_static = "cache_by_presample_static"
policy_name cache_by_fake_optimal = "cache_by_fake_optimal"
policy_name dynamic_cache = "dynamic_cache"
policy_name cache_by_random = "cache_by_random"
policy_name cache_by_presample_1 = "cache_by_presample_1"
policy_name cache_by_presample_2 = "cache_by_presample_2"
policy_name cache_by_presample_3 = "cache_by_presample_3"
policy_name cache_by_presample_4 = "cache_by_presample_4"
policy_name cache_by_presample_5 = "cache_by_presample_5"
policy_name cache_by_presample_6 = "cache_by_presample_6"
policy_name cache_by_presample_max = "cache_by_presample_max"
policy_name no_cache = "no_cache"

-- `range` leaves out its end, cache_by_presample_max.
abbrev pub is_presample : CachePolicy → Bool
is_presample p =
    leb (policy_value cache_by_presample_1) (policy_value p)
    && ltb (policy_value p) (policy_value cache_by_presample_max)

abbrev pub param_names : List String
param_names =
    "degree" ∷ "heuristic" ∷ "pre_sample" ∷ "degree_hop" ∷ "presample_static" ∷ "fake_optimal"
    ∷ "dynamic_cache" ∷ "random" ∷ []

unfoldable pub get_samgraph_policy_param_name : CachePolicy → Result String
get_samgraph_policy_param_name p =
    if is_presample p then ok "pre_sample" else elim (get_elem? param_names (policy_value p)) [
      | none ↦ raise index_error
      | some name ↦ ok name
    ]

unfoldable pub get_presample_epoch : CachePolicy → ℕ
get_presample_epoch p =
    if is_presample p then policy_value p - policy_value cache_by_presample_1 + 1 else 1

unfoldable pub policy_log_fname : CachePolicy → String
policy_log_fname cache_by_presample = policy_name cache_by_presample_1
policy_log_fname p = policy_name p

pub data Arch : Type 0 where
  arch0 arch1 arch2 arch3 arch4 : Arch

abbrev pub arch_name : Arch → String
arch_name arch0 = "arch0"
arch_name arch1 = "arch1"
arch_name arch2 = "arch2"
arch_name arch3 = "arch3"
arch_name arch4 = "arch4"

pub data SampleType : Type 0 where
  khop0 khop1 weighted_khop random_walk weighted_khop_prefix khop2 weighted_khop_hash_dedup
        default_for_app :
      SampleType

abbrev pub sample_type_value : SampleType → ℕ
sample_type_value khop0 = 0
sample_type_value khop1 = 1
sample_type_value weighted_khop = 2
sample_type_value random_walk = 3
sample_type_value weighted_khop_prefix = 4
sample_type_value khop2 = 5
sample_type_value weighted_khop_hash_dedup = 6
sample_type_value default_for_app = 10

-- `self.name`
abbrev pub sample_type_name : SampleType → String
sample_type_name khop0 = "kKHop0"
sample_type_name khop1 = "kKHop1"
sample_type_name weighted_khop = "kWeightedKHop"
sample_type_name random_walk = "kRandomWalk"
sample_type_name weighted_khop_prefix = "kWeightedKHopPrefix"
sample_type_name khop2 = "kKHop2"
sample_type_name weighted_khop_hash_dedup = "kWeightedKHopHashDedup"
sample_type_name default_for_app = "kDefaultForApp"

abbrev pub sample_type_names : List String
sample_type_names =
    "khop0" ∷ "khop1" ∷ "weighted_khop" ∷ "random_walk" ∷ "weighted_khop_prefix" ∷ "khop2"
    ∷ "weighted_khop_hash_dedup" ∷ []

-- `str(self)`
unfoldable pub show_sample_type : SampleType → Result String
show_sample_type t = elim (get_elem? sample_type_names (sample_type_value t)) [
  | none ↦ raise index_error
  | some name ↦ ok name
]

-- The names of Dataset are those of runner_helper2.py, and its values are others.
pub data Dataset : Type 0 where
  products papers100m uk_2006_05 twitter : Dataset

abbrev pub dataset_value : Dataset → ℕ
dataset_value products = 1
dataset_value papers100m = 2
dataset_value uk_2006_05 = 5
dataset_value twitter = 6

abbrev pub show_dataset : Dataset → String
show_dataset products = "products"
show_dataset papers100m = "papers100M"
show_dataset uk_2006_05 = "uk-2006-05"
show_dataset twitter = "twitter"
