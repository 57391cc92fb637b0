-- ===== src/State/Atomic.antt =====
-- A state file is replaced as a whole or not at all.
use akastr_agent.Base.{◌≡◌, ◌⊎◌, false, Option, none, some, ok, arith}
use akastr_agent.State.{holds, File, SaveStep, sync_directory, save, load}

module _ {ℓ} {A : Type ℓ} (fault : Option SaveStep) (value : A) (f : File A) where
  -- Whichever system call of a save fails, the file holds the new value or what it held before;
  -- it holds the new value if the save reports no error, and what it held before if the save
  -- reports an error of any step but the last, the sync of the directory. No error is
  -- reported exactly when no step failed.
  pub save_atomic :
      let (f', e) = save fault value f in
      ((f'.stored ≡ holds value) ⊎ (f'.stored ≡ f.stored))
      × (e ≡ none → f'.stored ≡ holds value)
      × (e ≡ none → fault ≡ none)
      × (fault ≡ none → e ≡ none)
      × ((s : SaveStep) → e ≡ some s → (s ≡ sync_directory) ⊎ (f'.stored ≡ f.stored))
  unfolding save
  save_atomic = (ground arith, ground arith, ground arith, ground arith, λ s e. ground arith)

  -- What a save that reports no error wrote is what the next load reads.
  pub load-save :
      (save fault value f).1 ≡ none → load false (save fault value f).0 ≡ ok (some value)
  unfolding save load
  load-save h = ground arith

  -- Whether a save succeeds or not, the next load reads what it wrote or what was there.
  pub load-save_either :
      (load false (save fault value f).0 ≡ ok (some value))
      ⊎ (load false (save fault value f).0 ≡ load false f)
  unfolding save load
  load-save_either = ground arith
