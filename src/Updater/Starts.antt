-- ===== src/Updater/Starts.antt =====
-- When a candidate is started.
use akastr_agent.Base.{
  ℕ, ◌-◌, ◌≤◌, ◌<◌, String, ◌≡◌, ◌⊎◌, refl, subst, Bool, true, Option, none, some, String-discrete,
  arith, length,
}
use akastr_agent.State.{File, holds, SaveStep, save}
use akastr_agent.Lifecycle.{try_update}
use akastr_agent.Updater.{
  Attempts, Updater, Outside, Lock, locked, lock_failed, held, allowed, counted, start, try_start,
  after_prepare, apply_record, record_of, load_attempts, apply,
}

-- What holds when apply calls Exec: the record of this try is on disk, it was allowed after the one
-- before, and the gate has the update lease while no operation has one.
pub record IsStart (x : Outside) (r : Attempts) (u : Updater) : Type 0 where
  pub on_disk : u.file.stored ≡ holds (counted x r)
  pub was_allowed : (r.attempts < 2) ⊎ (21600 ≤ x.now - r.last_attempt_at)
  pub leased : u.gate.updating ≡ true
  pub idle : u.gate.operations ≡ 0

save_succeeds :
    (fault : Option SaveStep) (r : Attempts) (f : File Attempts)
    → (save fault r f).1 ≡ none
    → (save fault r f).0.stored ≡ holds r
unfolding save
save_succeeds fault r f e = ground arith

allowed_means :
    (now : ℕ) (r : Attempts)
    → allowed now r ≡ true
    → (r.attempts < 2) ⊎ (21600 ≤ now - r.last_attempt_at)
unfolding allowed
allowed_means now r h = ground arith

start-IsStart :
    (x : Outside) (r : Attempts) (lease : Option ℕ) (u v : Updater)
    → allowed x.now r ≡ true
    → u.gate.updating ≡ true
    → u.gate.operations ≡ 0
    → (start x r lease u).started ≡ some v
    → IsStart x r v
unfolding start
start-IsStart x r lease u v a l i e = go (save x.fault (counted x r) u.file).1 refl
  where
    go : (o : Option SaveStep) → (save x.fault (counted x r) u.file).1 ≡ o → IsStart x r v
    go none q =
        let f : File Attempts = (save x.fault (counted x r) u.file).0 in
        let same : record u { file = f } ≡ v = ground (arith, q, e) in
        subst (IsStart x r) same (record {
          on_disk = save_succeeds x.fault (counted x r) u.file q;
          was_allowed = allowed_means x.now r a;
          leased = l;
          idle = i;
        })
    go (some s) q = absurd (ground (arith, q, e))

try_start-IsStart :
    (x : Outside) (r : Attempts) (u v : Updater)
    → allowed x.now r ≡ true
    → (try_start x r u).started ≡ some v
    → IsStart x r v
unfolding try_start try_update
try_start-IsStart x r u v a e = ground (
  arith,
  start-IsStart x r (some (length u.gate.leases)) (record u { gate = (try_update u.gate).0 }) v a,
)

apply_record-IsStart :
    (target : String) (x : Outside) (r : Attempts) (u v : Updater)
    → (apply_record target x r u).started ≡ some v
    → IsStart x r v
unfolding apply_record after_prepare
apply_record-IsStart target x r u v e = ground (arith, try_start-IsStart x r u v)

-- When apply starts a candidate, the record of this try is on disk, one more than the loaded record
-- of its target counts, at most the second in a row or at least six hours after the one before; and
-- at that moment the update lease is out and no operation is running.
pub apply-IsStart :
    (is_code : String → Bool) (target : String) (x : Outside) (u v : Updater)
    → (apply is_code target x u).started ≡ some v
    → (r : Attempts) × (load_attempts is_code x.unopened u.file ≡ some r)
      × IsStart x (record_of target r) v
unfolding apply
apply-IsStart is_code target x u v e = go x.lock refl (load_attempts is_code x.unopened u.file) refl
  where
    go :
        (k : Lock)
        → x.lock ≡ k
        → (o : Option Attempts) → load_attempts is_code x.unopened u.file ≡ o
        → (r : Attempts) × (load_attempts is_code x.unopened u.file ≡ some r)
          × IsStart x (record_of target r) v
    go locked p o q = absurd (ground (arith, p, e))
    go lock_failed p o q = absurd (ground (arith, p, e))
    go held p none q = absurd (ground (arith, p, q, e))
    go held p (some r) q =
        (r, q, apply_record-IsStart target x (record_of target r) u v (ground (arith, p, q, e)))
