-- ===== src/Tools/Checkpoint.antt =====
-- app/audio_trombone/tools/validate_mdx23c.py: `normalise_state_dict`, which mdx23c.py calls too.
pub mod RoundTrip
mod Tests
use karaoke_anything.Prelude.{
  ℕ, ◌≡◌, ◌≢◌, refl, sym, ap, ◌∙◌, inl, inr, String, Bool, true, false, not, ◌&&◌, ◌||◌, Option,
  none, some, List, [], ◌∷◌, if◌then◌else◌, Bool-cases, texts_equal, texts_equal_iff,
  texts_equal_refl, All, arith,
}
use Prim.Native.String.{len, slice, ◌++◌ as ◌<>◌}
use text.Mathlib.Text.{starts_with}
use text.Mathlib.TextPositions.{starts_with-append, slice-append_right, len-append}
use karaoke_anything.Errors.{Result, ok, err, value_error, type_error, ◌>>=◌, ◌>>◌, raise_if}

-- What `torch.load` returns: mappings, whose keys may be other objects than texts, and the rest.
pub data Key : Type 0 where
  name_key : String → Key
  object_key : ℕ → Key

mutual
  pub data Value : Type 0 where
    mapping : Entries → Value
    tensor : ℕ → Value

  pub data Entries : Type 0 where
    nil : Entries
    entry : Key → Value → Entries → Entries

-- `dict[str, Any]`, in its order
abbrev pub StateDict : Type 0
StateDict = List (String × Value)

abbrev same_key : String → Key → Bool
same_key name (name_key key) = texts_equal name key
same_key name (object_key n) = false

-- `checkpoint[name]`, if the key is there
unfoldable pub find : String → Entries → Option Value
find name nil = none
find name (entry key value rest) =
    let later = find name rest in if same_key name key then some value else later

abbrev present : Option Value → List Value → List Value
present none values = values
present (some value) values = value ∷ values

-- `[key for key in SUPPORTED_WRAPPERS if key in checkpoint]`, with the values
abbrev pub wrappers : Entries → List Value
wrappers checkpoint = present (find "state_dict" checkpoint) (present (find "model" checkpoint) [])

-- the tests of `_unwrap_checkpoint` on these
abbrev pub choose : Entries → List Value → Result Value
choose checkpoint [] = ok (mapping checkpoint)
choose checkpoint (value ∷ []) = ok value
choose checkpoint (_ ∷ _ ∷ _) = err (value_error "ambiguous checkpoint wrappers")

-- `_unwrap_checkpoint`
unfoldable pub unwrap_checkpoint : Entries → Result Value
unfolding find
unwrap_checkpoint checkpoint = choose checkpoint (wrappers checkpoint)

-- the keys as texts, if all are
unfoldable pub text_keys : Entries → Result StateDict
text_keys nil = ok []
text_keys (entry (name_key key) value rest) = text_keys rest >>= λ state. ok ((key, value) ∷ state)
text_keys (entry (object_key n) value rest) =
    err (type_error "checkpoint state dictionary keys must be strings")

-- `_validate_state_mapping`
unfoldable pub validate_state_mapping : Value → Result StateDict
unfolding text_keys
validate_state_mapping (tensor n) =
    err (value_error "checkpoint state dictionary must be a non-empty mapping")
validate_state_mapping (mapping nil) =
    err (value_error "checkpoint state dictionary must be a non-empty mapping")
validate_state_mapping (mapping (entry key value rest)) = text_keys (entry key value rest)

abbrev pub is_prefixed : String → Bool
is_prefixed key = starts_with key "module."

-- `key.removeprefix("module.")`
abbrev pub remove_prefix : String → String
remove_prefix key = if is_prefixed key then slice key (len "module.") (len key) else key

-- `True in prefix_variants`, and `False in prefix_variants`
unfoldable pub any_prefixed : StateDict → Bool
any_prefixed [] = false
any_prefixed (item ∷ state) = is_prefixed item.0 || any_prefixed state

unfoldable pub any_plain : StateDict → Bool
any_plain [] = false
any_plain (item ∷ state) = not (is_prefixed item.0) || any_plain state

abbrev pub stripped : StateDict → StateDict
stripped [] = []
stripped (item ∷ state) = (remove_prefix item.0, item.1) ∷ stripped state

-- `_strip_module_prefix`
unfoldable pub strip_module_prefix : StateDict → Result StateDict
unfolding any_prefixed any_plain
strip_module_prefix state =
    if any_prefixed state && any_plain state
    then err (value_error "mixed 'module.' prefixes are not supported")
    else (if any_prefixed state then ok (stripped state) else ok state)

-- `normalise_state_dict`
unfoldable pub normalise_state_dict : Value → Result StateDict
unfolding unwrap_checkpoint validate_state_mapping strip_module_prefix
normalise_state_dict (tensor n) =
    err (type_error "checkpoint must contain a state dictionary mapping")
normalise_state_dict (mapping checkpoint) = unwrap_checkpoint checkpoint >>= λ state.
    validate_state_mapping state >>= λ items. strip_module_prefix items
