-- ===== src/ConnectionRecords/Counts.antt =====
-- How many records of internal/modules/connectionrecords/module.go a queue and a batch hold.
use akastr_agent.Base.{
  ℕ, zero, suc, ◌+◌, ◌-◌, ◌≤◌, min, String, Bool, true, false, ltb, Option, none, some, List, [],
  ◌∷◌, ◌++◌, length, drop, length-append, length-drop, if◌then◌else◌, String-discrete, ◌≡◌, refl,
  sym, subst, ◌∙◌, arith,
}
use akastr_agent.ConnectionRecords.{
  Line, Ending, Batch, Records, max_queued, max_batch, take, unreadable, entry_of, trim, add,
}

unfoldable pub batch_size : Option Batch → ℕ
batch_size none = 0
batch_size (some b) = length b.records + b.dropped

-- How many records are queued, wait to be acknowledged, or are counted as dropped
unfoldable pub held : Records → ℕ
held r = length r.queue + r.dropped + batch_size r.pending

unfoldable pub batch_length : Option Batch → ℕ
batch_length none = 0
batch_length (some b) = length b.records

-- The queue and the batch are bounded.
abbrev pub IsBounded : Records → Type 0
IsBounded r = (length r.queue ≤ max_queued) × (batch_length r.pending ≤ max_batch)

-- How many records a line makes
unfoldable pub readable : (String → ℕ) → Line → ℕ
readable bytes l = if unreadable bytes l then 0 else 1

pub length-take : {A : Type 0} (n : ℕ) (xs : List A) → length (take n xs) ≡ min n (length xs)
length-take zero xs = omega arith
length-take (suc n) [] = omega arith
length-take (suc n) (x ∷ xs) = omega (arith, length-take n xs)

trim_held :
    (r : Records)
    → (held (trim r) ≡ held r)
      × (length (trim r).queue ≤ max_queued)
      × ((trim r).pending ≡ r.pending)
unfolding trim held
trim_held r = go (ltb max_queued (length r.queue)) refl
  where
    many : ℕ
    many = length r.queue - 18000

    t : Bool → Records
    t b = if b then record r { queue = drop many r.queue; dropped = r.dropped + many } else r

    go :
        (b : Bool)
        → ltb max_queued (length r.queue) ≡ b
        → (held (t b) ≡ held r) × (length (t b).queue ≤ max_queued) × ((t b).pending ≡ r.pending)
    go true q = (
      ground (arith, q, length-drop many r.queue),
      ground (arith, q, length-drop many r.queue),
      refl,
    )
    go false q = (refl, ground (arith, q), refl)

pub add_held :
    (bytes : String → ℕ) (l : Line) (e : Option Ending) (r : Records)
    → IsBounded r
    → (held (add bytes l e r) ≡ held r + readable bytes l) × IsBounded (add bytes l e r)
unfolding add readable held
add_held bytes l e r v = go (unreadable bytes l)
  where
    more : Records
    more = record r { queue = r.queue ++ entry_of l e ∷ [] }

    grown : held more ≡ held r + 1
    grown = omega (arith, length-append r.queue (entry_of l e ∷ []))

    go :
        (b : Bool)
        → (held (if b then r else trim more) ≡ held r + (if b then 0 else 1))
          × IsBounded (if b then r else trim more)
    go true = (omega arith, v)
    go false = (
      (trim_held more).0 ∙ grown,
      ((trim_held more).1, subst (λ p. batch_length p ≤ max_batch) (sym (trim_held more).2) v.1),
    )
