-- ===== src/Parameters/Storage/Used/Tests.antt =====
-- A volume of 4096 bytes with 1000 free.
use k_fsw.Base.{◌-◌, ◌≤◌, ◌<◌, ◌≡◌, refl, ◌⊎◌, true, some, arith}
use k_fsw.Parameters.Storage.{StorageInfo, StorageWorld, used_percent, sample_storage}
use k_fsw.Parameters.Storage.Used.{IsPercent, sample_storage_used_pct}

abbrev volume : StorageInfo
volume = record { ready = true; total_bytes = 4096; free_bytes = 1000 }

abbrev world : StorageWorld
world = record { info = some volume; total_kb = 0; free_kb = 0; used_pct = 0; mounted = 0 }

used_pct : (sample_storage world).used_pct ≡ 75
unfolding sample_storage used_percent
used_pct = refl

sample_storage_used_pct_example :
    ((0 < 4096) × (1000 ≤ 4096) × IsPercent 4096 (4096 - 1000) (sample_storage world).used_pct)
    ⊎ (((volume.total_bytes ≡ 0) ⊎ (4096 < 1000)) × ((sample_storage world).used_pct ≡ 0))
sample_storage_used_pct_example = sample_storage_used_pct world volume refl (omega arith)
