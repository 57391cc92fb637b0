-- ===== src/State/Tests.antt =====
-- The theorems of this part at concrete inputs.
use akastr_agent.Base.{ℕ, ◌≡◌, ◌⊎◌, refl, none, some}
use akastr_agent.State.{File, SaveStep, holds, rename, sync_directory, save}
use akastr_agent.State.Atomic.{save_atomic}

abbrev file : File ℕ
file = record { stored = holds 3 }

abbrev seven : ℕ
seven = 7

-- A failed rename leaves the old contents.
save-rename : save (some rename) seven file ≡ (file, some rename)
unfolding save
save-rename = refl

-- A failed sync of the directory is an error although the new contents stand.
save-sync_directory :
    save (some sync_directory) seven file ≡ (record file { stored = holds 7 }, some sync_directory)
unfolding save
save-sync_directory = refl

save_atomic_example :
    let (f', e) = save (some rename) seven file in
    ((f'.stored ≡ holds 7) ⊎ (f'.stored ≡ holds 3))
    × (e ≡ none → f'.stored ≡ holds 7)
    × (e ≡ none → some rename ≡ none)
    × (some rename ≡ none → e ≡ none)
    × ((s : SaveStep) → e ≡ some s → (s ≡ sync_directory) ⊎ (f'.stored ≡ holds 3))
save_atomic_example = save_atomic (some rename) seven file
