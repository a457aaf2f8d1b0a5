-- ===== src/Tests/Predict.antt =====
-- internal/predict/predictor.go: a model that is there.
use snipr.Base.{ℕ, none, some, [], ◌∷◌, ok}
use snipr.Predict.{Files, array, other, present, load_xgb}
use snipr.Predict.Load.{Loads, model_path, load_xgb-Loads}
use snipr.Tests.Features.{whole}

abbrev pub files : Files ℕ
files = record {
  stat = λ p. present;
  json = λ p. other;
  first_value = λ p. some array;
  ensemble = λ p. ok (λ row. ok (some row ∷ []));
}

load_xgb-Loads_example :
    Loads whole
      (λ s. none)
      files
      (model_path whole (λ s. none) files [])
      (load_xgb whole (λ s. none) files [])
load_xgb-Loads_example = load_xgb-Loads whole (λ s. none) files []
