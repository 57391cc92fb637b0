-- ===== src/Updater/Forward.antt =====
-- That a target which is accepted moves neither version nor revision backwards.
use akastr_agent.Base.{
  ℕ, ◌≤◌, String, Bool, true, false, not, ◌&&◌, ◌||◌, Option, none, some, ltb, ◌==◌, is, of_is,
  if◌then◌else◌, String-discrete, Result, ok, err, ◌>>=◌, ◌>>◌, refuse, ◌≡◌, ◌≢◌, refl, arith, ◌⊎◌,
  inl, inr,
}
use akastr_agent.Updater.Versions.{
  VersionParts, parse_version, older, rank, older-rank, parse_version-Small,
}
use akastr_agent.Updater.Target.{
  Target, Fault, bad_status, bad_current, bad_software, backwards, mismatch, bad_configuration,
  is_text, is_sha256, is_binary_url, changed, iff, version_fault, validate,
}

passes :
    (b : Bool) (f : Fault) (k : Result Fault (Unit {0})) (u : Unit {0})
    → (refuse b f >> k) ≡ ok u
    → (b ≡ false) × (k ≡ ok u)
passes true f k u e = ground (arith, e)
passes false f k u e = (refl, e)

all_pass :
    (a b c : Bool) (f g h : Fault) (u : Unit {0})
    → (refuse a f >> refuse b g >> refuse c h) ≡ ok u
    → (a ≡ false) × (b ≡ false) × (c ≡ false)
all_pass true b c f g h u e = ground (arith, e)
all_pass false true c f g h u e = ground (arith, e)
all_pass false false true f g h u e = ground (arith, e)
all_pass false false false f g h u e = (refl, refl, refl)

-- The target is not older, in version or in revision.
abbrev pub IsForward : String → ℕ → Target → Type 0
IsForward version revision t =
    (c : VersionParts) × (n : VersionParts) × (parse_version version ≡ some c)
    × (parse_version t.version ≡ some n)
    × (rank c ≤ rank n)
    × (revision ≤ t.revision)

iff_true : (b c : Bool) → not (iff b c) ≡ false → b ≡ c
unfolding iff
iff_true b c e = ground (arith, e)

unchanged :
    (version : String) (revision : ℕ) (t : Target)
    → changed version revision t ≡ false
    → (t.version ≡ version) × (t.revision ≡ revision)
unfolding changed
unchanged version revision t e =
    (of_is (String-discrete t.version version) (ground (arith, e)), ground (arith, e))

forward :
    (version : String) (revision : ℕ) (t : Target) (v : VersionParts × VersionParts)
    → version_fault version t ≡ ok v
    → (older v.1 v.0 || ltb t.revision revision) ≡ false
    → IsForward version revision t
unfolding version_fault
forward version revision t v e h =
    go (parse_version version) refl (parse_version t.version) refl
      (not (is_sha256 t.binary_sha256) || not (is_binary_url t.version t.binary_url)) e
  where
    go :
        (o : Option VersionParts)
        → parse_version version ≡ o
        → (p : Option VersionParts) → parse_version t.version ≡ p
        → (b : Bool)
        → elim o as (λ _. Result Fault (VersionParts × VersionParts)) [
          | none ↦ err bad_current
          | some c ↦ elim p [
            | none ↦ err bad_software
            | some n ↦ (if b then err bad_software else ok (c, n))
          ]
        ]
          ≡ ok v
        → IsForward version revision t
    go none q p r b k = ground (arith, k)
    go (some c) q none r b k = ground (arith, k)
    go (some c) q (some n) r true k = ground (arith, k)
    go (some c) q (some n) r false k = (c, n, q, r, not_older, ground (arith, h))
      where
        same : (older n c ≡ false)
        same = ground (arith, h, k)

        not_older : rank c ≤ rank n
        not_older = ground (
          arith,
          same,
          (older-rank n c (parse_version-Small t.version n r) (parse_version-Small version c q)).1,
        )

status_of :
    (version : String) (revision : ℕ) (t : Target) (d : Dec (t.status ≡ "current"))
    → iff (is d) (changed version revision t) ≡ false
    → (¬ (t.status ≡ "current")) ⊎ ((t.version ≡ version) × (t.revision ≡ revision))
unfolding iff
status_of version revision t (yes p) m = inr (unchanged version revision t m)
status_of version revision t (no n) m = inl n

available :
    (t : Target) (revision : ℕ) (d : Dec (t.status ≡ "update_available"))
    → (is d && not (t.revision == revision)) ≡ true
    → (t.status ≡ "update_available") × (t.revision ≢ revision)
available t revision (yes p) h = (p, λ q. ground (arith, h, q))
available t revision (no n) h = ground (arith, h)

configuration_of :
    (t : Target) (revision : ℕ) (b : Bool)
    → t.has_configuration ≡ b
    → not (iff b (is_text t.status "update_available" && not (t.revision == revision))) ≡ false
    → (b ≡ false) ⊎ ((t.status ≡ "update_available") × (t.revision ≢ revision))
unfolding iff
configuration_of t revision false q m = inl refl
configuration_of t revision true q m =
    inr (available t revision (String-discrete t.status "update_available") (ground (arith, m)))

-- A target that passes is not older than what runs, in version or in revision; its status says
-- current only if it is the version and the revision that run, and it brings a configuration only
-- with an update to another revision.
pub validate-IsForward :
    (version : String) (revision : ℕ) (t : Target) (u : Unit {0})
    → validate version revision t ≡ ok u
    → IsForward version revision t
      × ((¬ (t.status ≡ "current")) ⊎ ((t.version ≡ version) × (t.revision ≡ revision)))
      × ((t.has_configuration ≡ false)
          ⊎ ((t.status ≡ "update_available") × (t.revision ≢ revision)))
unfolding validate
validate-IsForward version revision t u e =
    go (version_fault version t) refl (passes _ bad_status _ u e).1
  where
    backward : VersionParts × VersionParts → Bool
    backward v = older v.1 v.0 || ltb t.revision revision

    mismatched : Bool
    mismatched = iff (is_text t.status "current") (changed version revision t)

    configured : Bool
    configured = not (
        iff t.has_configuration
          (is_text t.status "update_available" && not (t.revision == revision)))

    status :
        mismatched ≡ false
        → (¬ (t.status ≡ "current")) ⊎ ((t.version ≡ version) × (t.revision ≡ revision))
    status m = status_of version revision t (String-discrete t.status "current") m

    configuration :
        configured ≡ false
        → (t.has_configuration ≡ false)
          ⊎ ((t.status ≡ "update_available") × (t.revision ≢ revision))
    configuration m = configuration_of t revision t.has_configuration refl m

    go :
        (r : Result Fault (VersionParts × VersionParts))
        → version_fault version t ≡ r
        → (r >>= λ v.
            refuse (backward v) backwards
            >> refuse mismatched mismatch
            >> refuse configured bad_configuration)
          ≡ ok u
        → IsForward version revision t
          × ((¬ (t.status ≡ "current")) ⊎ ((t.version ≡ version) × (t.revision ≡ revision)))
          × ((t.has_configuration ≡ false)
              ⊎ ((t.status ≡ "update_available") × (t.revision ≢ revision)))
    go (err f) q k = ground (arith, k)
    go (ok v) q k = (forward version revision t v q all.0, status all.1, configuration all.2)
      where
        all : (backward v ≡ false) × (mismatched ≡ false) × (configured ≡ false)
        all = all_pass (backward v) mismatched configured backwards mismatch bad_configuration u k
