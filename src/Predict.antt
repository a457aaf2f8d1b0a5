-- ===== src/Predict.antt =====
-- internal/predict/predictor.go: the model that scores a window, and how it is loaded.
pub mod Load
use snipr.Base.{
  ◌==◌, ℕ, zero, suc, Bool, true, false, ◌||◌, not, Option, none, some, List, [], ◌∷◌, ◌++◌, map,
  if◌then◌else◌, length, Result, ok, err, ◌>>=◌,
}
use snipr.Float.{Float64}
use snipr.Text.{Text, codes, is_empty, trim_left, trim_right}
use snipr.Text.Map.{Map, lookup}

-- The interface `Predictor`, with the errors as texts.
pub record Predictor (F : Type 0) : Type 0 where
  pub ready : Bool
  pub predict_proba : List F → Result Text F

-- `inference.Ensemble` of xgboost-go: from a row to the vectors of a prediction, each a pointer.
abbrev pub Ensemble : Type 0 → Type 0
Ensemble F = List F → Result Text (List (Option (List F)))

pub record XgbPredictor (F : Type 0) : Type 0 where
  pub ensemble : Option (Ensemble F)
  pub base_score_logit : F

-- A JSON value, as far as the program looks into it, which is not into arrays; a member that is not
-- there is `other`.
pub data Json : Type 0 where
  object : (Text → Json) → Json
  text : Text → Json
  array other : Json

-- A type assertion to an object, and its member of this name.
abbrev pub member : Text → Json → Json
member key (object fields) = fields key
member key (text s) = other
member key array = other
member key other = other

-- A type assertion to `string`, which gives the empty text for another type.
abbrev pub text_or_empty : Json → Text
text_or_empty (text s) = s
text_or_empty (object fields) = []
text_or_empty array = []
text_or_empty other = []

-- `NewNoop`
abbrev pub noop : {F : Type 0} → Text → Predictor F
noop reason = record {
  ready = false;
  predict_proba = λ features. err (codes "no model loaded: " ++ reason);
}

-- `parse_float` is `strconv.ParseFloat`.
module _ (fl : Float64) (parse_float : Text → Option fl.F) where
  open fl use {F, of_ℕ, decimal, add, sub, div, neg, exp, log, leb, to_float32}

  unfoldable pub sigmoid : F → F
  sigmoid x = div (of_ℕ 1) (add (of_ℕ 1) (exp (neg x)))

  abbrev pub first_margin : List (Option (List F)) → Result Text F
  first_margin (some (m ∷ _) ∷ _) = ok m
  first_margin _ = err (codes "empty prediction")

  abbrev ensemble_proba : F → List F → Ensemble F → Result Text F
  ensemble_proba base features run = do
    preds ← run (map to_float32 features)
    margin ← first_margin preds
    ok (sigmoid (add margin base))

  -- `XGBPredictor.PredictProba`
  unfoldable pub predict_proba : XgbPredictor F → List F → Result Text F
  unfolding sigmoid
  predict_proba p features = elim p.ensemble [
    | none ↦ err (codes "predictor not ready")
    | some run ↦
        if length features == 8
        then ensemble_proba p.base_score_logit features run
        else err (codes "expected 8 features")
  ]

  abbrev pub is_loaded : Option (Ensemble F) → Bool
  is_loaded none = false
  is_loaded (some _) = true

  -- A loaded model as a predictor.
  abbrev pub xgb : XgbPredictor F → Predictor F
  xgb p = record { ready = is_loaded p.ensemble; predict_proba = predict_proba p }

  abbrev is_bracket : ℕ → Bool
  is_bracket c = c == b'[' || c == b']'

  abbrev logit_of : Option F → F
  logit_of none = of_ℕ 0
  logit_of (some p) =
      if leb p (of_ℕ 0) || leb (of_ℕ 1) p then of_ℕ 0 else log (div p (sub (of_ℕ 1) p))

  -- `loadBaseScoreLogit`, of what the file holds if it can be read and parsed.
  unfoldable pub load_base_score_logit : Json → F
  unfolding trim_left trim_right
  load_base_score_logit root =
      let params = member (codes "learner_model_param") (member (codes "learner") root) in
      logit_of (
        parse_float (
          trim_right is_bracket
            (trim_left is_bracket (text_or_empty (member (codes "base_score") params)))))

-- What `os.Stat` says of a path.
pub data Stat : Type 0 where
  present missing : Stat
  failing : Text → Stat

-- The files that the program finds: whether a path is there, what JSON a file holds (`other` where
-- it cannot be read), the first JSON value in it, where it can be opened and has one, and the
-- ensemble that xgboost-go reads from it.
pub record Files (F : Type 0) : Type 0 where
  pub stat : Text → Stat
  pub json : Text → Json
  pub first_value : Text → Option Json
  pub ensemble : Text → Result Text (Ensemble F)

-- A type assertion to an array, of a value if there is one.
abbrev pub is_array : Option Json → Bool
is_array none = false
is_array (some (object fields)) = false
is_array (some (text s)) = false
is_array (some array) = true
is_array (some other) = false

module _ {F : Type 0} (files : Files F) where
  -- `isDumpFormat`
  abbrev pub is_dump_format : Text → Bool
  is_dump_format path = is_array (files.first_value path)

  -- `ensureDumpFormat`
  abbrev pub ensure_dump_format : Text → Option Text
  ensure_dump_format path =
      if is_dump_format path
      then none
      else some (path ++ codes " looks like native XGBoost save_model JSON")

  abbrev pub is_present : Stat → Bool
  is_present present = true
  is_present missing = false
  is_present (failing _) = false

  -- The first of some paths that passes a test.
  unfoldable pub first_path : (Text → Bool) → List Text → Option Text
  first_path test [] = none
  first_path test (p ∷ ps) = let rest = first_path test ps in if test p then some p else rest

  -- `resolveModelPath`
  unfoldable pub resolve_model_path : Text
  unfolding first_path
  resolve_model_path =
      let candidates = codes "models/mymodel.json" ∷ codes "mymodel.json" ∷ [] in
      elim (first_path (λ p. if is_present (files.stat p) then is_dump_format p else false)
        candidates) [
          | some p ↦ p
          | none ↦ elim (first_path (λ p. is_present (files.stat p)) candidates) [
            | some p ↦ p
            | none ↦ codes "models/mymodel.json"
          ]
        ]

module _ (fl : Float64) (parse_float : Text → Option fl.F) (files : Files fl.F) where
  open fl use {F}

  abbrev pub with_ensemble : Result Text (Ensemble F) → Result Text (Predictor F)
  with_ensemble (err e) = err (codes "load xgboost json: " ++ e)
  with_ensemble (ok run) = ok (
      xgb fl parse_float (record {
        ensemble = some run;
        base_score_logit = load_base_score_logit fl parse_float (files.json (codes "mymodel.json"));
      }))

  abbrev pub with_format : Option Text → Result Text (Ensemble F) → Result Text (Predictor F)
  with_format (some e) loaded = err e
  with_format none loaded = with_ensemble loaded

  abbrev pub with_stat : Text → Stat → Result Text (Predictor F)
  with_stat path missing = ok (noop (codes "model not found at " ++ path))
  with_stat path (failing e) = err e
  with_stat path present = with_format (ensure_dump_format files path) (files.ensemble path)

  -- `LoadXGB`
  unfoldable pub load_xgb : Text → Result Text (Predictor F)
  unfolding resolve_model_path predict_proba load_base_score_logit
  load_xgb model_path =
      let path = if is_empty model_path then resolve_model_path files else model_path in
      with_stat path (files.stat path)
