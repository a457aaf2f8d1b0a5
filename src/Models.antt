-- ===== src/Models.antt =====
-- internal/models: the messages of the bus.
use snipr.Base.{List, [], ◌∷◌}
use snipr.Base.Int.{ℤ}
use snipr.Text.{Text, codes}

-- chat.go
pub record ChatMessage : Type 0 where
  pub id : Text
  pub channel : Text
  pub user_id : Text
  pub user_name : Text
  pub content : Text
  pub emotes : List Text
  pub bits : ℤ
  pub timestamp : ℤ

-- features.go; `F` is `float64`
pub record FeatureVector (F : Type 0) : Type 0 where
  pub channel : Text
  pub window_start : ℤ
  pub window_end : ℤ
  pub msg_count : F
  pub unique_users : F
  pub avg_msg_len : F
  pub max_repeat_count : F
  pub unique_norm_msgs : F
  pub entropy_raw : F
  pub hype_score : F
  pub repeat_ratio : F

-- `FeatureOrder`
abbrev pub feature_order : List Text
feature_order =
    codes "msg_count"
    ∷ codes "unique_users"
    ∷ codes "avg_msg_len"
    ∷ codes "max_repeat_count"
    ∷ codes "unique_norm_msgs"
    ∷ codes "entropy_raw"
    ∷ codes "hype_score"
    ∷ codes "repeat_ratio"
    ∷ []

-- `FeatureVector.Values`
unfoldable pub values : {F : Type 0} → FeatureVector F → List F
values f =
    f.msg_count ∷ f.unique_users ∷ f.avg_msg_len ∷ f.max_repeat_count ∷ f.unique_norm_msgs
    ∷ f.entropy_raw ∷ f.hype_score ∷ f.repeat_ratio ∷ []
