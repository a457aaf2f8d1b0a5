-- ===== src/Pipeline/Clip/Granted/Made.antt =====
-- From the answers of Twitch to a clip that is made, and back.
use snipr.Base.{
  ℕ, ◌≡◌, refl, sym, ◌∙◌, true, Option, none, some, Result, ok, err, arith, inl, inr, Bool-cases,
}
use snipr.Base.Int.{ℤ}
use snipr.Float.{Float64}
use snipr.Models.{FeatureVector}
use snipr.Pipeline.Clip.{
  Clock, Consumers, Helix, Outcome, clip_created, clip_doc_of, clip_url, clip_with, created,
  index_clip_of, index_with, user_found, with_helix,
}
use snipr.Text.{Text}
use snipr.Twitch as Twitch
use snipr.Twitch.{ClipResponse, HelixClient, HelixError, is_accepted}
use snipr.Twitch.Answers.{
  create_clip-Gives, create_clip-ok, get_user_id-Keeps, get_user_id-Knows, get_user_id-found,
}
use snipr.Pipeline.Clip.Granted.{Answers, Makes, helix_of, worded}

module _ (fl : Float64) (unix : ℤ → Text) (lower : ℕ → ℕ) (words : HelixError → Text)
    (a : Answers) where
  open fl use {F, decimal, leb as leb_F}

  abbrev api : Helix HelixClient
  api = helix_of lower words a

  module _ (clock : Clock) (fv : FeatureVector F) (prob : F) where
    worded-ok :
        {A : Type 0} (x : HelixClient × Result HelixError A) (r : A)
        → (worded words x).1 ≡ ok r
        → x.1 ≡ ok r
    worded-ok (c, ok b) r h = ground (arith, h)
    worded-ok (c, err e) r h = absurd (ground (arith, h))

    clip_created-result :
        (c : Consumers F HelixClient) (x : HelixClient × Result Text ClipResponse) (id : Text)
        → (clip_created fl api unix clock fv prob c x).1 ≡ created id
        → (r : ClipResponse) × (r.id ≡ id) × (x.1 ≡ ok r)
    unfolding index_clip_of
    clip_created-result c (h, ok r) id e = (r, ground (arith, e), refl)
    clip_created-result c (h, err _) id e = absurd (ground (arith, e))

    user_found-Makes :
        (c : Consumers F HelixClient) (h : HelixClient) (x : HelixClient × Result HelixError Text)
        (id : Text)
        → Twitch.get_user_id lower a.user_token a.user fv.channel h ≡ x
        → Twitch.is_configured h ≡ true
        → (user_found fl api unix clock fv prob c (worded words x)).1 ≡ created id
        → (r : ClipResponse) × (r.id ≡ id) × Makes lower a fv.channel (some h) r
    user_found-Makes c h (h', err e) id is_x set_up made = absurd (ground (arith, made))
    user_found-Makes c h (h', ok user) id is_x set_up made =
        let (r, same, clipped) = clip_created-result (with_helix fl api unix h' c) _ id made in
        let kept = rw is_x at (get_user_id-Keeps lower a.user_token a.user fv.channel h) in
        let (token, given) =
          create_clip-Gives a.clip_token a.clip h' r (kept.0 ∙ set_up) (worded-ok _ r clipped) in
        (
          r,
          same,
          record {
            client = h;
            client_is = refl;
            configured = set_up;
            user = user;
            user_known =
                get_user_id-Knows lower a.user_token a.user fv.channel h user (rw is_x refl);
            token = sym (kept.1 a.clip_token) ∙ token;
            clip_given = given;
          },
        )

    pub clip_with-Makes :
        (c : Consumers F HelixClient) (o : Option HelixClient) (id : Text)
        → (clip_with fl api unix clock fv prob c o).1 ≡ created id
        → (r : ClipResponse) × (r.id ≡ id) × Makes lower a fv.channel o r
    clip_with-Makes c none id e = absurd (unfold index_clip_of in ground (arith, e))
    clip_with-Makes c (some h) id e = elim (Bool-cases (Twitch.is_configured h)) [
      | inl set_up ↦
          user_found-Makes c h (Twitch.get_user_id lower a.user_token a.user fv.channel h) id refl
            set_up (rw set_up at e)
      | inr bare ↦ absurd (unfold index_clip_of in ground (arith, rw bare at e))
    ]

    -- The clip was made, and its document is handed to the indexer.
    pub record IsMade (c : Consumers F HelixClient) (r : ClipResponse)
        (x : Consumers F HelixClient × Outcome) : Type 0 where
      pub outcome_is : x.1 ≡ created r.id
      pub indexed :
          x.0.elastic
          ≡ index_with fl api unix clock
              (clip_doc_of fl api unix clock fv r.id (clip_url r.id) r.edit_url prob)
              c.elastic_online
              c.elastic

    clip_created-IsMade :
        (c : Consumers F HelixClient) (x : HelixClient × Result HelixError ClipResponse)
        (r : ClipResponse)
        → x.1 ≡ ok r
        → IsMade c r (clip_created fl api unix clock fv prob c (worded words x))
    clip_created-IsMade c (h, ok r') r e =
        let same : r' ≡ r = ground (arith, e) in
        unfold index_clip_of in rw same (record { outcome_is = refl; indexed = refl })
    clip_created-IsMade c (h, err _) r e = absurd (ground (arith, e))

    user_found-IsMade :
        (c : Consumers F HelixClient) (o : Option HelixClient) (r : ClipResponse)
        (m : Makes lower a fv.channel o r) (x : HelixClient × Result HelixError Text)
        → Twitch.get_user_id lower a.user_token a.user fv.channel m.client ≡ x
        → IsMade c r (user_found fl api unix clock fv prob c (worded words x))
    user_found-IsMade c o r m (h', ok user) is_x =
        let kept = rw is_x at (get_user_id-Keeps lower a.user_token a.user fv.channel m.client) in
        let made =
          clip_created-IsMade (with_helix fl api unix h' c)
            (Twitch.create_clip a.clip_token a.clip h') r
            (create_clip-ok a.clip_token a.clip h' r (kept.0 ∙ m.configured)
              (kept.1 a.clip_token ∙ m.token) m.clip_given) in
        record { outcome_is = made.outcome_is; indexed = made.indexed }
    user_found-IsMade c o r m (h', err e) is_x = absurd (
        ground (
          arith,
          is_x,
          get_user_id-found lower a.user_token a.user fv.channel m.client m.user m.user_known,
        ))

    pub clip_with-IsMade :
        (c : Consumers F HelixClient) (o : Option HelixClient) (r : ClipResponse)
        → Makes lower a fv.channel o r
        → IsMade c r (clip_with fl api unix clock fv prob c o)
    clip_with-IsMade c o r m =
        rw (m.client_is, m.configured)
          (user_found-IsMade c o r m
            (Twitch.get_user_id lower a.user_token a.user fv.channel m.client) refl)
