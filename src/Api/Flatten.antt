-- ===== src/Api/Flatten.antt =====
-- app/main.py: which updates a request becomes.
use karaoke_anything.Prelude.{◌≡◌, true, some, texts_equal_refl, ==_refl}
use karaoke_anything.Prelude.Int.{ℤ, pos, negsuc, same_int}
use karaoke_anything.Host.{Host}
use karaoke_anything.Config.{Settings}
use karaoke_anything.Service.State.{AudioProcessor, Network, TromboneService}
use karaoke_anything.Api.{RuntimeSettingsUpdate, unchanged, flatten_updates, apply_settings}

same_int_refl : (z : ℤ) → same_int z z ≡ true
same_int_refl (pos n) = ==_refl n
same_int_refl (negsuc n) = ==_refl n

-- The body that states the settings `s`, as `runtime_settings` reports them.
abbrev pub snapshot : {F : Type 0} → Settings F → RuntimeSettingsUpdate F
snapshot s = record {
  processor = some s.processor;
  demucs = some (record {
    model = some s.demucs_model;
    device = some s.demucs_device;
    segment_seconds = some s.demucs_segment_seconds;
    overlap = some s.demucs_overlap;
    shifts = some s.demucs_shifts;
    vocal_reduction = some s.demucs_vocal_reduction;
  });
  convtasnet = some (record {
    model_path = some s.convtasnet_model_path;
    device = some s.convtasnet_device;
    segment_seconds = some s.convtasnet_segment_seconds;
    vocal_reduction = some s.convtasnet_vocal_reduction;
    vocal_source_index = some s.convtasnet_vocal_source_index;
    accompaniment_source_index = some s.convtasnet_accompaniment_source_index;
  });
  mdx23c = some (record {
    device = some s.mdx23c_device;
    segment_seconds = some s.mdx23c_segment_seconds;
    overlap = some s.mdx23c_overlap;
    batch_size = some s.mdx23c_batch_size;
    vocal_reduction = some s.mdx23c_vocal_reduction;
    precision = some s.mdx23c_precision;
  });
  centre_reduction = some (record { reduction = some s.centre_reduction });
}

-- Where every float is equal to itself, a request that states the current settings is answered with
-- "unchanged", and the service stays as it is.
pub apply_settings-snapshot :
    {Memory : Type 0} (host : Host) (audio : AudioProcessor host.Float Memory) (sendto : Network)
    (s : TromboneService host.Float Memory)
    → ((x : host.Float) → host.eq x x ≡ true)
    → apply_settings host audio sendto (snapshot s.settings) s ≡ (unchanged, s)
unfolding apply_settings flatten_updates
apply_settings-snapshot host audio sendto s same = simp (texts_equal_refl, same, same_int_refl)
