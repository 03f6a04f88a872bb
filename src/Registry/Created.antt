-- ===== src/Registry/Created.antt =====
-- app/audio_trombone/processors/registry.py: what `create` builds, name by name.
use karaoke_anything.Prelude.{
  ◌≡◌, refl, sym, subst, inl, inr, String, true, false, List, [], ◌∷◌, Bool-cases, All, texts_equal,
  texts_equal_iff,
}
use karaoke_anything.Errors.{Result, ok, err, >>=-eq-ok, ok-injective, ◌>>◌, unknown_processor}
use karaoke_anything.Host.{Host}
use karaoke_anything.Config.{Settings}
use karaoke_anything.Registry.{
  ProcessorConfig, passthrough, stereo_centre_reduction, htdemucs_vocals, convtasnet_lyrics,
  mdx23c_vocals, name_of, float, htdemucs_config, convtasnet_config, mdx23c_config, factory, create,
}

-- the keys of `_factories`
abbrev pub names : List String
names =
    "passthrough" ∷ "delay-passthrough" ∷ "null" ∷ "stereo-centre-reduction" ∷ "htdemucs-vocals"
    ∷ "convtasnet-lyrics-causal" ∷ "mdx23c-vocals" ∷ []

-- the key that a name is, if it is one
pub data Named (name : String) : Type 0 where
  is_passthrough : name ≡ "passthrough" → Named name
  is_delay : name ≡ "delay-passthrough" → Named name
  is_null : name ≡ "null" → Named name
  is_centre : name ≡ "stereo-centre-reduction" → Named name
  is_htdemucs : name ≡ "htdemucs-vocals" → Named name
  is_convtasnet : name ≡ "convtasnet-lyrics-causal" → Named name
  is_mdx23c : name ≡ "mdx23c-vocals" → Named name
  is_unlisted : All (λ key. texts_equal name key ≡ false) names → Named name

same : (name key : String) → texts_equal name key ≡ true → name ≡ key
same name key h = (texts_equal_iff name key).0 h

pub Named-cases : (name : String) → Named name
Named-cases name = elim (Bool-cases (texts_equal name "passthrough")) [
  | inl e ↦ is_passthrough (same name "passthrough" e)
  | inr e1 ↦ elim (Bool-cases (texts_equal name "delay-passthrough")) [
    | inl e ↦ is_delay (same name "delay-passthrough" e)
    | inr e2 ↦ elim (Bool-cases (texts_equal name "null")) [
      | inl e ↦ is_null (same name "null" e)
      | inr e3 ↦ elim (Bool-cases (texts_equal name "stereo-centre-reduction")) [
        | inl e ↦ is_centre (same name "stereo-centre-reduction" e)
        | inr e4 ↦ elim (Bool-cases (texts_equal name "htdemucs-vocals")) [
          | inl e ↦ is_htdemucs (same name "htdemucs-vocals" e)
          | inr e5 ↦ elim (Bool-cases (texts_equal name "convtasnet-lyrics-causal")) [
            | inl e ↦ is_convtasnet (same name "convtasnet-lyrics-causal" e)
            | inr e6 ↦ elim (Bool-cases (texts_equal name "mdx23c-vocals")) [
              | inl e ↦ is_mdx23c (same name "mdx23c-vocals" e)
              | inr e7 ↦ is_unlisted (e1, (e2, (e3, (e4, (e5, (e6, (e7, tt)))))))
            ]
          ]
        ]
      ]
    ]
  ]
]

module _ (host : Host) where
  -- the processor of the same class that the settings `s` describe
  abbrev pub configured :
      Settings host.Float → ProcessorConfig host.Float → ProcessorConfig host.Float
  configured s (stereo_centre_reduction _) = stereo_centre_reduction s.centre_reduction
  configured s (htdemucs_vocals _) = htdemucs_vocals (htdemucs_config host s)
  configured s (convtasnet_lyrics _) = convtasnet_lyrics (convtasnet_config host s)
  configured s (mdx23c_vocals _) = mdx23c_vocals (mdx23c_config host s)
  configured s config = config

  pub unlisted_refused :
      (s : Settings host.Float) (name : String)
      → All (λ key. texts_equal name key ≡ false) names
      → create host s name ≡ err (unknown_processor name)
  unfolding create factory
  unlisted_refused s name (e1, (e2, (e3, (e4, (e5, (e6, (e7, _))))))) =
      rw (create, factory, e1, e2, e3, e4, e5, e6, e7) refl

  behind_check :
      (s : Settings host.Float) (m : Result (Unit {0})) (made config : ProcessorConfig host.Float)
      → (m >> ok made) ≡ ok config
      → made ≡ config
  behind_check s (ok _) made config h = ok-injective h
  behind_check s (err e) made config h = cc

  -- What was created has the name that was asked for, and the attributes that the settings describe.
  pub created :
      (s : Settings host.Float) (name : String) (config : ProcessorConfig host.Float)
      → create host s name ≡ ok config
      → (name_of config ≡ name) × (configured s config ≡ config)
  unfolding create factory
  created s name config h = elim (Named-cases name) [
    | is_passthrough e ↦
        let c : passthrough ≡ config = ok-injective (at "passthrough" e) in by_config c e refl
    | is_delay e ↦
        let (seconds, _, c) =
          >>=-eq-ok (host.div (float host 5 1) (float host 1000 1)) _ (at "delay-passthrough" e) in
        by_config (ok-injective c) e refl
    | is_null e ↦ by_config (ok-injective (at "null" e)) e refl
    | is_centre e ↦
        by_config
          (behind_check s _ (stereo_centre_reduction s.centre_reduction) config
            (at "stereo-centre-reduction" e))
          e refl
    | is_htdemucs e ↦
        by_config
          (behind_check s _ (htdemucs_vocals (htdemucs_config host s)) config
            (at "htdemucs-vocals" e))
          e refl
    | is_convtasnet e ↦
        by_config
          (behind_check s _ (convtasnet_lyrics (convtasnet_config host s)) config
            (at "convtasnet-lyrics-causal" e))
          e refl
    | is_mdx23c e ↦
        by_config
          (behind_check s _ (mdx23c_vocals (mdx23c_config host s)) config (at "mdx23c-vocals" e)) e
          refl
    | is_unlisted others ↦ cc (h, unlisted_refused s name others)
  ]
    where
      at : (key : String) → name ≡ key → create host s key ≡ ok config
      at key e = subst (λ k. create host s k ≡ ok config) e h

      by_config :
          {made : ProcessorConfig host.Float}
          → made ≡ config
          → name ≡ name_of made
          → configured s made ≡ made
          → (name_of config ≡ name) × (configured s config ≡ config)
      by_config c e f = subst (λ x. (name_of x ≡ name) × (configured s x ≡ x)) c (sym e, f)
