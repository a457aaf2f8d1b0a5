-- ===== src/Predict/Load.antt =====
-- Which model a window is scored by.
use snipr.Base.{
  ◌≡◌, ◌≢◌, none, refl, ◌⊎◌, inl, inr, true, false, Option, some, ◌++◌, map, if◌then◌else◌, Result,
  ok, err, ◌>>=◌,
}
use snipr.Float.{Float64}
use snipr.Models.{FeatureVector, values}
use snipr.Predict.{
  Predictor, Ensemble, Files, Json, object, text, array, other, is_array, Stat, present, missing,
  failing, sigmoid, first_margin, predict_proba, load_base_score_logit, load_xgb, with_stat,
  with_format, resolve_model_path,
}
use snipr.Text.{Text, codes, is_empty}

module _ (fl : Float64) (parse_float : Text → Option fl.F) where
  open fl use {F, add, to_float32}

  -- What a model makes of a window: the sigmoid of the first margin and the base score.
  abbrev pub scored : Ensemble F → F → FeatureVector F → Result Text F
  scored run base fv = do
    preds ← run (map to_float32 (values fv))
    margin ← first_margin fl parse_float preds
    ok (sigmoid fl parse_float (add margin base))

  predict_proba-values :
      (run : Ensemble F) (base : F) (fv : FeatureVector F)
      → predict_proba fl parse_float
          (record { ensemble = some run; base_score_logit = base })
          (values fv)
        ≡ scored run base fv
  unfolding predict_proba values
  predict_proba-values run base fv = refl

module _ (fl : Float64) (parse_float : Text → Option fl.F) (files : Files fl.F) where
  open fl use {F}

  -- What `load_xgb` comes to: a model in dump format, or none where there is no file, or an error.
  abbrev pub Loads : Text → Result Text (Predictor F) → Type 0
  Loads path (ok p) =
      ((p.ready ≡ false) × (files.stat path ≡ missing))
      ⊎ ((p.ready ≡ true)
          × (files.stat path ≡ present)
          × (files.first_value path ≡ some array)
          × ((run : Ensemble F) × (files.ensemble path ≡ ok run)
              × ((fv : FeatureVector F)
                  → p.predict_proba (values fv)
                    ≡ scored fl parse_float run
                        (load_base_score_logit fl parse_float (files.json (codes "mymodel.json")))
                        fv)))
  Loads path (err e) =
      (files.stat path ≡ failing e)
      ⊎ ((files.stat path ≡ present)
          × ((files.first_value path ≢ some array)
              ⊎ ((why : Text) × (files.ensemble path ≡ err why))))

  -- The path that is loaded.
  abbrev pub model_path : Text → Text
  model_path path = if is_empty path then resolve_model_path files else path

  with_stat-Loads :
      (path : Text) (s : Stat)
      → files.stat path ≡ s
      → Loads path (with_stat fl parse_float files path s)
  with_stat-Loads path missing h = inl (refl, h)
  with_stat-Loads path (failing e) h = inl h
  with_stat-Loads path present h = listed (files.first_value path) refl (files.ensemble path) refl
    where
      listed :
          (o : Option Json)
          → files.first_value path ≡ o
          → (r : Result Text (Ensemble F)) → files.ensemble path ≡ r
          → Loads path (
              with_format fl parse_float files
                (if is_array o
                  then none
                  else some (path ++ codes " looks like native XGBoost save_model JSON"))
                r)
      listed none a r e = inr (h, inl (λ d. absurd (cc (a, d))))
      listed (some (object fields)) a r e = inr (h, inl (λ d. absurd (cc (a, d))))
      listed (some (text s)) a r e = inr (h, inl (λ d. absurd (cc (a, d))))
      listed (some other) a r e = inr (h, inl (λ d. absurd (cc (a, d))))
      listed (some array) a (err why) e = inr (h, inr (why, e))
      listed (some array) a (ok run) e =
          inr (refl, h, a, (run, e, λ fv. predict_proba-values fl parse_float run _ fv))

  -- Loading a model gives a predictor that is not ready exactly where there is no file at the
  -- path; a ready one has the ensemble of a file whose first JSON value is an array, and scores
  -- every window by it and the base score, with no complaint about the number of features; an
  -- error is one of `os.Stat`, of the format, or of the loader.
  pub load_xgb-Loads : (path : Text) → Loads (model_path path) (load_xgb fl parse_float files path)
  unfolding load_xgb
  load_xgb-Loads path = with_stat-Loads (model_path path) (files.stat (model_path path)) refl
