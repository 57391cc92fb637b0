-- ===== src/Xui/Durable.antt =====
-- What the next process finds of the module's state.
use akastr_agent.Base.{
  ℕ, String, Bool, true, false, Option, none, some, List, [], ◌∷◌, Assoc, put, length, ◌==◌,
  String-discrete, if◌then◌else◌, Result, ok, err, ◌≡◌, refl, sym, subst, ◌∙◌, ap, arith, ◌⊎◌, inl,
  inr,
}
use akastr_agent.State.{File, SaveStep, save, load}
use akastr_agent.State.Atomic.{load-save, load-save_either}
use akastr_agent.Xui.State.{
  StateFile, LocalState, opened, open_state, save_state, flush, set_reset, set_restart_pending,
  keep_only, kept,
}

-- A call of one of the state's methods
pub data Op : Type 0 where
  flushes : Option SaveStep → Op
  resets : Option SaveStep → String → ℕ → Op
  pends : Option SaveStep → Bool → Op
  keeps : Option SaveStep → (String → Bool) → Op

unfoldable pub call : Op → LocalState → LocalState
call (flushes fault) s = (flush fault s).0
call (resets fault e n) s = (set_reset fault e n s).0
call (pends fault b) s = (set_restart_pending fault b s).0
call (keeps fault wanted) s = (keep_only fault wanted s).0

unfoldable pub calls : List Op → LocalState → LocalState
calls [] s = s
calls (o ∷ os) s = calls os (call o s)

-- The resets that the file holds
unfoldable pub stored_resets : File StateFile → Option (Assoc String ℕ)
stored_resets f = elim (open_state false f) [ none ↦ none | some s ↦ some s.resets ]

-- The records that are not dirty are those that the next process opens.
abbrev pub IsSaved : LocalState → Type 0
IsSaved s = s.dirty ≡ false → stored_resets s.file ≡ some s.resets

-- The same of what is loaded
unfoldable loaded_resets : Result (Unit {0}) (Option StateFile) → Option (Assoc String ℕ)
loaded_resets (err e) = none
loaded_resets (ok none) = some []
loaded_resets (ok (some s)) = if s.schema == 1 then some s.resets else none

stored_loaded : (f : File StateFile) → stored_resets f ≡ loaded_resets (load false f)
unfolding stored_resets open_state opened loaded_resets
stored_loaded f = go (load false f)
  where
    go :
        (l : Result (Unit {0}) (Option StateFile))
        → elim (opened f l) as (λ _. Option (Assoc String ℕ)) [
          | none ↦ none
          | some s ↦ some s.resets
        ]
          ≡ loaded_resets l
    go (err e) = refl
    go (ok none) = refl
    go (ok (some s)) = ground arith

abbrev saved_file : Bool → LocalState → StateFile
saved_file b s = record { schema = 1; resets = s.resets; restart_pending = b }

save_state_loaded :
    (fault : Option SaveStep) (b : Bool) (s : LocalState)
    → ((save_state fault b s).1 ≡ true)
    → stored_resets (save_state fault b s).0.file ≡ some s.resets
unfolding save_state loaded_resets
save_state_loaded fault b s t =
    stored_loaded (save fault (saved_file b s) s.file).0
    ∙ ap loaded_resets (load-save fault (saved_file b s) s.file (ground (arith, t)))

-- A save, failed or not, keeps the resets that the file holds if they are those of the state.
save_state_kept :
    (fault : Option SaveStep) (b : Bool) (s : LocalState)
    → stored_resets s.file ≡ some s.resets
    → stored_resets (save_state fault b s).0.file ≡ some s.resets
unfolding save_state loaded_resets
save_state_kept fault b s t = elim (load-save_either fault (saved_file b s) s.file) [
  | inl e ↦ stored_loaded (save fault (saved_file b s) s.file).0 ∙ ap loaded_resets e
  | inr e ↦
      stored_loaded (save fault (saved_file b s) s.file).0
      ∙ ap loaded_resets e
      ∙ sym (stored_loaded s.file)
      ∙ t
]

save_state_fields :
    (fault : Option SaveStep) (b : Bool) (s : LocalState)
    → ((save_state fault b s).0.dirty ≡ s.dirty) × ((save_state fault b s).0.resets ≡ s.resets)
unfolding save_state
save_state_fields fault b s = (refl, refl)

-- What flush and setRestartPending make of a save
unfoldable after_save : Bool → LocalState × Bool → LocalState
after_save p r = if r.1 then record r.0 { restart_pending = p; dirty = false } else r.0

after_save-IsSaved :
    (fault : Option SaveStep) (b : Bool) (p : Bool) (s : LocalState)
    → IsSaved s
    → IsSaved (after_save p (save_state fault b s))
unfolding after_save
after_save-IsSaved fault b p s h =
    go (save_state fault b s) (save_state_fields fault b s) (save_state_loaded fault b s)
      (save_state_kept fault b s)
  where
    go :
        (r : LocalState × Bool)
        → (r.0.dirty ≡ s.dirty) × (r.0.resets ≡ s.resets)
        → (r.1 ≡ true → stored_resets r.0.file ≡ some s.resets)
        → (stored_resets s.file ≡ some s.resets → stored_resets r.0.file ≡ some s.resets)
        → IsSaved (if r.1 then record r.0 { restart_pending = p; dirty = false } else r.0)
    go (t, true) f l k = λ _. l refl ∙ ap some (sym f.1)
    go (t, false) f l k = λ d. k (h (sym f.0 ∙ d)) ∙ ap some (sym f.1)

flush_after :
    (fault : Option SaveStep) (s : LocalState)
    → ((flush fault s).0 ≡ s)
      ⊎ ((flush fault s).0 ≡ after_save s.restart_pending (save_state fault s.restart_pending s))
unfolding flush after_save save_state
flush_after fault s = ground arith

pending_after :
    (fault : Option SaveStep) (b : Bool) (s : LocalState)
    → ((set_restart_pending fault b s).0 ≡ s)
      ⊎ ((set_restart_pending fault b s).0 ≡ after_save b (save_state fault b s))
unfolding set_restart_pending after_save save_state
pending_after fault b s = ground arith

flush-IsSaved : (fault : Option SaveStep) (s : LocalState) → IsSaved s → IsSaved (flush fault s).0
flush-IsSaved fault s h = elim (flush_after fault s) [
  | inl e ↦ subst IsSaved (sym e) h
  | inr e ↦ subst IsSaved (sym e) (after_save-IsSaved fault s.restart_pending s.restart_pending s h)
]

call-IsSaved : (o : Op) (s : LocalState) → IsSaved s → IsSaved (call o s)
unfolding call set_reset keep_only
call-IsSaved (flushes fault) s h = flush-IsSaved fault s h
call-IsSaved (resets fault e n) s h =
    flush-IsSaved fault (record s { resets = put s.resets e n; dirty = true })
      (λ d. ground (arith, d))
call-IsSaved (pends fault b) s h = elim (pending_after fault b s) [
  | inl e ↦ subst IsSaved (sym e) h
  | inr e ↦ subst IsSaved (sym e) (after_save-IsSaved fault b b s h)
]
call-IsSaved (keeps fault wanted) s h = go (length (kept wanted s.resets) == length s.resets)
  where
    go :
        (b : Bool)
        → IsSaved
            (if◌then◌else◌ {A = LocalState × Bool} b
              (s, true)
              (flush fault (record s { resets = kept wanted s.resets; dirty = true }))).0
    go true = h
    go false =
        flush-IsSaved fault (record s { resets = kept wanted s.resets; dirty = true })
          (λ d. ground (arith, d))

calls-IsSaved : (os : List Op) (s : LocalState) → IsSaved s → IsSaved (calls os s)
unfolding calls
calls-IsSaved [] s h = h
calls-IsSaved (o ∷ os) s h = calls-IsSaved os (call o s) (call-IsSaved o s h)

opened_file :
    (f : File StateFile) (l : Result (Unit {0}) (Option StateFile)) (s : LocalState)
    → opened f l ≡ some s
    → s.file ≡ f
unfolding opened
opened_file f (err u) s e = ground (arith, e)
opened_file f (ok none) s e = ground (arith, e)
opened_file f (ok (some v)) s e = ground (arith, e)

opened-IsSaved :
    (f : File StateFile) (s : LocalState)
    → open_state false f ≡ some s
    → stored_resets s.file ≡ some s.resets
unfolding open_state stored_resets
opened-IsSaved f s e =
    ap stored_resets (opened_file f (load false f) s e)
    ∙ ap (λ o. elim o as (λ _. Option (Assoc String ℕ)) [ none ↦ none | some t ↦ some t.resets ]) e

-- Once the file could be opened, after any calls of the state's methods with any failed saves, the
-- next process opens the resets that the state records, unless the state knows that it is dirty.
pub calls_saved :
    (f : File StateFile) (s : LocalState) (os : List Op)
    → open_state false f ≡ some s
    → (calls os s).dirty ≡ false
    → stored_resets (calls os s).file ≡ some (calls os s).resets
calls_saved f s os e d = calls-IsSaved os s (λ _. opened-IsSaved f s e) d
