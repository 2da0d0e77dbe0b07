-- ===== src/AutoRunner/Datasets.antt =====
-- The enumeration Dataset of example/auto_runner/common.py.
use fgnn_artifacts.Prelude.{ℕ, String}

pub data Dataset : Type 0 where
  reddit products papers100m friendster papers100m_300 uk_2006_05 twitter sk_2005 : Dataset

-- The value of the enumeration's member.
abbrev pub dataset_value : Dataset → ℕ
dataset_value reddit = 0
dataset_value products = 1
dataset_value papers100m = 2
dataset_value friendster = 3
dataset_value papers100m_300 = 4
dataset_value uk_2006_05 = 5
dataset_value twitter = 6
dataset_value sk_2005 = 7

abbrev pub show_dataset : Dataset → String
show_dataset reddit = "reddit"
show_dataset products = "products"
show_dataset papers100m = "papers100M"
show_dataset friendster = "com-friendster"
show_dataset papers100m_300 = "papers100M_300"
show_dataset uk_2006_05 = "uk-2006-05"
show_dataset twitter = "twitter"
show_dataset sk_2005 = "sk-2005"
