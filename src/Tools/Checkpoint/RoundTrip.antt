-- ===== src/Tools/Checkpoint/RoundTrip.antt =====
-- app/audio_trombone/tools/validate_mdx23c.py: every documented way to save a state dictionary.
use karaoke_anything.Prelude.{
  ◌≡◌, ◌≢◌, refl, ap, ap₂, ◌∙◌, inl, inr, String, Bool, true, false, none, [], ◌∷◌, if◌then◌else◌,
  Bool-cases, texts_equal, texts_equal_iff, All,
}
use Prim.Native.String.{◌++◌ as ◌<>◌}
use text.Mathlib.TextPositions.{starts_with-append, slice-append_right, len-append}
use karaoke_anything.Errors.{ok}
use karaoke_anything.Tools.Checkpoint.{
  name_key, Value, mapping, Entries, nil, entry, StateDict, find, unwrap_checkpoint, text_keys,
  validate_state_mapping, is_prefixed, remove_prefix, any_prefixed, any_plain, stripped,
  strip_module_prefix, normalise_state_dict,
}

-- how a checkpoint may hold the state
pub data Wrapper : Type 0 where
  bare in_state_dict in_model : Wrapper

abbrev pub entries : StateDict → Entries
entries [] = nil
entries (item ∷ state) = entry (name_key item.0) item.1 (entries state)

-- as `DataParallel` names the parameters
abbrev pub prefixed : StateDict → StateDict
prefixed [] = []
prefixed (item ∷ state) = ("module." <> item.0, item.1) ∷ prefixed state

abbrev pub wrapped : Wrapper → Value → Value
wrapped bare state = state
wrapped in_state_dict state = mapping (entry (name_key "state_dict") state nil)
wrapped in_model state = mapping (entry (name_key "model") state nil)

abbrev pub saved : Wrapper → Bool → StateDict → Value
saved wrapper parallel state =
    wrapped wrapper (mapping (entries (if parallel then prefixed state else state)))

-- a name that is neither prefixed nor that of a wrapper
abbrev pub IsPlain : String × Value → Type 0
IsPlain item =
    (is_prefixed item.0 ≡ false)
    × (texts_equal "state_dict" item.0 ≡ false)
    × (texts_equal "model" item.0 ≡ false)

text_keys-entries : (state : StateDict) → text_keys (entries state) ≡ ok state
unfolding text_keys
text_keys-entries [] = refl
text_keys-entries (item ∷ state) = rw (text_keys-entries state) refl

validated :
    (state : StateDict) → state ≢ [] → validate_state_mapping (mapping (entries state)) ≡ ok state
unfolding validate_state_mapping
validated [] h = absurd (h refl)
validated (item ∷ state) h = text_keys-entries (item ∷ state)

find-entries :
    (name : String) (state : StateDict)
    → All (λ (item : String × Value). texts_equal name item.0 ≡ false) state
    → find name (entries state) ≡ none
unfolding find
find-entries name [] h = refl
find-entries name (item ∷ state) h = rw (h.0, find-entries name state h.1) refl

-- no wrapper is found
unwrapped :
    (state : StateDict)
    → All (λ (item : String × Value). texts_equal "state_dict" item.0 ≡ false) state
    → All (λ (item : String × Value). texts_equal "model" item.0 ≡ false) state
    → unwrap_checkpoint (entries state) ≡ ok (mapping (entries state))
unfolding unwrap_checkpoint
unwrapped state h k = rw (find-entries "state_dict" state h, find-entries "model" state k) refl

-- another word never equals a prefixed name
differs-prefixed :
    (name key : String) → is_prefixed name ≡ false → texts_equal name ("module." <> key) ≡ false
differs-prefixed name key plain = elim (Bool-cases (texts_equal name ("module." <> key))) [
  | inr other ↦ other
  | inl same ↦
      let e = (texts_equal_iff name ("module." <> key)).0 same in
      let starts : is_prefixed name ≡ true = ap is_prefixed e ∙ starts_with-append "module." key in
      cc (starts, plain)
]

prefixed-differs :
    (name : String) (state : StateDict)
    → is_prefixed name ≡ false
    → All (λ (item : String × Value). texts_equal name item.0 ≡ false) (prefixed state)
prefixed-differs name [] plain = tt
prefixed-differs name (item ∷ state) plain =
    (differs-prefixed name item.0 plain, prefixed-differs name state plain)

remove_prefix-prefixed : (key : String) → remove_prefix ("module." <> key) ≡ key
remove_prefix-prefixed key =
    rw (starts_with-append "module." key, len-append "module." key)
      (slice-append_right "module." key)

stripped-prefixed : (state : StateDict) → stripped (prefixed state) ≡ state
stripped-prefixed [] = refl
stripped-prefixed (item ∷ state) =
    ap₂ ◌∷◌ (ap (λ key. (key, item.1)) (remove_prefix-prefixed item.0)) (stripped-prefixed state)

any_plain-prefixed : (state : StateDict) → any_plain (prefixed state) ≡ false
unfolding any_plain
any_plain-prefixed [] = refl
any_plain-prefixed (item ∷ state) =
    rw (starts_with-append "module." item.0) (any_plain-prefixed state)

any_prefixed-prefixed : (state : StateDict) → state ≢ [] → any_prefixed (prefixed state) ≡ true
unfolding any_prefixed
any_prefixed-prefixed [] h = absurd (h refl)
any_prefixed-prefixed (item ∷ state) h = rw (starts_with-append "module." item.0) refl

any_prefixed-plain : (state : StateDict) → All IsPlain state → any_prefixed state ≡ false
unfolding any_prefixed
any_prefixed-plain [] h = refl
any_prefixed-plain (item ∷ state) h = rw h.0.0 (any_prefixed-plain state h.1)

strip-plain : (state : StateDict) → All IsPlain state → strip_module_prefix state ≡ ok state
unfolding strip_module_prefix
strip-plain state h = rw (any_prefixed-plain state h) refl

strip-prefixed : (state : StateDict) → state ≢ [] → strip_module_prefix (prefixed state) ≡ ok state
unfolding strip_module_prefix
strip-prefixed state h =
    rw (any_prefixed-prefixed state h, any_plain-prefixed state) (ap ok (stripped-prefixed state))

-- a wrapped state, or one that is not taken for a wrapper
normalised :
    (wrapper : Wrapper) (state out : StateDict)
    → state ≢ []
    → All (λ (item : String × Value). texts_equal "state_dict" item.0 ≡ false) state
    → All (λ (item : String × Value). texts_equal "model" item.0 ≡ false) state
    → strip_module_prefix state ≡ ok out
    → normalise_state_dict (wrapped wrapper (mapping (entries state))) ≡ ok out
unfolding normalise_state_dict unwrap_checkpoint find
normalised bare state out n h k s = rw (unwrapped state h k, validated state n) s
normalised in_state_dict state out n h k s = rw (validated state n) s
normalised in_model state out n h k s = rw (validated state n) s

not-nil-prefixed : (state : StateDict) → state ≢ [] → prefixed state ≢ []
not-nil-prefixed [] n e = n refl
not-nil-prefixed (item ∷ state) n e = cc e

plain-named :
    (state : StateDict)
    → All IsPlain state
    → All (λ (item : String × Value). texts_equal "state_dict" item.0 ≡ false) state
      × All (λ (item : String × Value). texts_equal "model" item.0 ≡ false) state
plain-named [] h = (tt, tt)
plain-named (item ∷ state) h = let (a, b) = plain-named state h.1 in ((h.0.1, a), (h.0.2, b))

-- A state dictionary that has an entry, and no name that starts with "module." or is that of a wrapper,
-- is read back as it was, in its order, whichever wrapper it was saved in, and whether or not its names
-- were prefixed for several devices.
pub normalise_state_dict-saved :
    (wrapper : Wrapper) (parallel : Bool) (state : StateDict)
    → state ≢ []
    → All IsPlain state
    → normalise_state_dict (saved wrapper parallel state) ≡ ok state
normalise_state_dict-saved wrapper true state n h =
    normalised wrapper (prefixed state) state (not-nil-prefixed state n)
      (prefixed-differs "state_dict" state refl) (prefixed-differs "model" state refl)
      (strip-prefixed state n)
normalise_state_dict-saved wrapper false state n h =
    let (a, b) = plain-named state h in normalised wrapper state state n a b (strip-plain state h)
