-- ===== src/ConnectionRecords/Order.antt =====
-- Which records of internal/modules/connectionrecords/module.go are kept, and in which order.
use akastr_agent.Base.{
  ℕ, zero, suc, ◌≡◌, ◌⊎◌, inl, inr, refl, sym, ap, subst, ◌∙◌, String, Bool, true, false, ltb, min,
  Option, none, some, List, [], ◌∷◌, ◌++◌, length, drop, is, if◌then◌else◌, String-discrete, ◌-◌,
  ◌*◌, ◌/◌, ◌+◌, arith,
}
use akastr_agent.ConnectionRecords.{
  Line, Ending, Entry, Batch, Records, new, max_batch, max_queued, take, unreadable, entry_of, trim,
  add, add_lines, ended, send, acknowledge,
}
use akastr_agent.ConnectionRecords.Counts.{held, IsBounded}
use akastr_agent.ConnectionRecords.Conserved.{
  Call, lines, ends, sends, acks, call, calls, all_made, all_settled, calls_conserved,
}

-- The entries of the first list stand in the second one, in their order.
unfoldable pub Sublist : List Entry → List Entry → Type 0
Sublist [] ys = Unit
Sublist (x ∷ xs) [] = ⊥
Sublist (x ∷ xs) (y ∷ ys) = ((x ≡ y) × Sublist xs ys) ⊎ Sublist (x ∷ xs) ys

Sublist-refl : (xs : List Entry) → Sublist xs xs
unfolding Sublist
Sublist-refl [] = tt
Sublist-refl (x ∷ xs) = inl (refl, Sublist-refl xs)

Sublist-trans : (xs ys zs : List Entry) → Sublist xs ys → Sublist ys zs → Sublist xs zs
unfolding Sublist
Sublist-trans [] ys zs h k = tt
Sublist-trans (x ∷ xs) [] zs h k = absurd h
Sublist-trans (x ∷ xs) (y ∷ ys) [] h k = absurd k
Sublist-trans (x ∷ xs) (y ∷ ys) (z ∷ zs) (inl (e, h)) (inl (f, k)) =
    inl (e ∙ f, Sublist-trans xs ys zs h k)
Sublist-trans (x ∷ xs) (y ∷ ys) (z ∷ zs) (inr h) (inl (f, k)) =
    inr (Sublist-trans (x ∷ xs) ys zs h k)
Sublist-trans (x ∷ xs) (y ∷ ys) (z ∷ zs) h (inr k) = inr (Sublist-trans (x ∷ xs) (y ∷ ys) zs h k)

Sublist-after : (ys ps qs : List Entry) → Sublist ps qs → Sublist ps (ys ++ qs)
unfolding Sublist
Sublist-after [] ps qs h = h
Sublist-after (y ∷ ys) [] qs h = tt
Sublist-after (y ∷ ys) (p ∷ ps) qs h = inr (Sublist-after ys (p ∷ ps) qs h)

Sublist-append :
    (xs ys ps qs : List Entry) → Sublist xs ys → Sublist ps qs → Sublist (xs ++ ps) (ys ++ qs)
unfolding Sublist
Sublist-append [] ys ps qs h k = Sublist-after ys ps qs k
Sublist-append (x ∷ xs) [] ps qs h k = absurd h
Sublist-append (x ∷ xs) (y ∷ ys) ps qs (inl (e, h)) k = inl (e, Sublist-append xs ys ps qs h k)
Sublist-append (x ∷ xs) (y ∷ ys) ps qs (inr h) k = inr (Sublist-append (x ∷ xs) ys ps qs h k)

Sublist-drop : (n : ℕ) (xs : List Entry) → Sublist (drop n xs) xs
unfolding Sublist
Sublist-drop zero xs = Sublist-refl xs
Sublist-drop (suc n) [] = tt
Sublist-drop (suc n) (x ∷ xs) = Sublist-after (x ∷ []) (drop n xs) xs (Sublist-drop n xs)

take-drop : (n : ℕ) (xs : List Entry) → take n xs ++ drop n xs ≡ xs
take-drop zero xs = refl
take-drop (suc n) [] = refl
take-drop (suc n) (x ∷ xs) = ap (λ ys. x ∷ ys) (take-drop n xs)

unfoldable pub records_of : Option Batch → List Entry
records_of none = []
records_of (some b) = b.records

-- The records that wait to be acknowledged, and those that wait to be sent.
abbrev pub stock : Records → List Entry
stock r = records_of r.pending ++ r.queue

abbrev pub entry_if : (String → ℕ) → Line → Option Ending → List Entry
entry_if bytes l e = if unreadable bytes l then [] else entry_of l e ∷ []

abbrev pub with_network : Line → Line
with_network l = if is (String-discrete l.network "") then record l { network = "tcp" } else l

unfoldable pub entries_of : (String → ℕ) → List Line → List Entry
entries_of bytes [] = []
entries_of bytes (l ∷ ls) = (if l.backlog then [] else entry_if bytes l none) ++ entries_of bytes ls

-- The records that a call makes, and those that it settles
unfoldable pub entries : (String → ℕ) → Call → List Entry
entries bytes (lines ls) = entries_of bytes ls
entries bytes (ends l e) = entry_if bytes (with_network l) (some e)
entries bytes _ = []

unfoldable pub acked : Call → Records → List Entry
acked (acks id) r = records_of (acknowledge id r).1
acked _ r = []

unfoldable pub all_entries : (String → ℕ) → List Call → List Entry
all_entries bytes [] = []
all_entries bytes (c ∷ cs) = entries bytes c ++ all_entries bytes cs

unfoldable pub all_acked : (String → ℕ) → List Call → Records → List Entry
all_acked bytes [] r = []
all_acked bytes (c ∷ cs) r = acked c r ++ all_acked bytes cs (call bytes c r)

stock-trim : (r : Records) → Sublist (stock (trim r)) (stock r)
unfolding trim
stock-trim r = go (ltb max_queued (length r.queue))
  where
    many : ℕ
    many = length r.queue - max_queued * 9 / 10

    go :
        (b : Bool)
        → Sublist
            (stock
              (if b then record r { queue = drop many r.queue; dropped = r.dropped + many } else r))
            (stock r)
    go true =
        Sublist-append (records_of r.pending) (records_of r.pending) (drop many r.queue) r.queue
          (Sublist-refl (records_of r.pending)) (Sublist-drop many r.queue)
    go false = Sublist-refl (stock r)

append_assoc : (xs ys zs : List Entry) → (xs ++ ys) ++ zs ≡ xs ++ (ys ++ zs)
append_assoc [] ys zs = refl
append_assoc (x ∷ xs) ys zs = ap (λ ps. x ∷ ps) (append_assoc xs ys zs)

nothing_more : (xs : List Entry) → xs ++ [] ≡ xs
nothing_more [] = refl
nothing_more (x ∷ xs) = ap (λ ys. x ∷ ys) (nothing_more xs)

same_stock : (xs ys : List Entry) → xs ≡ ys → Sublist xs (ys ++ [])
same_stock xs ys e = subst (λ zs. Sublist xs zs) (e ∙ sym (nothing_more ys)) (Sublist-refl xs)

module _ (bytes : String → ℕ) where
  stock-add :
      (l : Line) (e : Option Ending) (r : Records)
      → Sublist (stock (add bytes l e r)) (stock r ++ entry_if bytes l e)
  unfolding add
  stock-add l e r = go (unreadable bytes l)
    where
      more : Records
      more = record r { queue = r.queue ++ entry_of l e ∷ [] }

      go :
          (b : Bool)
          → Sublist
              (stock (if b then r else trim more))
              (stock r ++ (if b then [] else entry_of l e ∷ []))
      go true = same_stock (stock r) (stock r) refl
      go false =
          subst (λ ys. Sublist (stock (trim more)) ys)
            (sym (append_assoc (records_of r.pending) r.queue (entry_of l e ∷ [])))
            (stock-trim more)

  stock-add_lines :
      (ls : List Line) (r : Records)
      → Sublist (stock (add_lines bytes ls r)) (stock r ++ entries_of bytes ls)
  unfolding add_lines entries_of
  stock-add_lines [] r = same_stock (stock r) (stock r) refl
  stock-add_lines (l ∷ ls) r = go l.backlog (stock-add_lines ls)
    where
      go :
          (b : Bool)
          → ((s : Records)
              → Sublist (stock (add_lines bytes ls s)) (stock s ++ entries_of bytes ls))
          → Sublist
              (stock (add_lines bytes ls (if b then r else add bytes l none r)))
              (stock r ++ ((if b then [] else entry_if bytes l none) ++ entries_of bytes ls))
      go true ih = ih r
      go false ih =
          subst (λ ys. Sublist (stock (add_lines bytes ls (add bytes l none r))) ys)
            (append_assoc (stock r) (entry_if bytes l none) (entries_of bytes ls))
            (Sublist-trans _ (stock (add bytes l none r) ++ entries_of bytes ls) _
              (ih (add bytes l none r))
              (Sublist-append _ _ (entries_of bytes ls) (entries_of bytes ls) (stock-add l none r)
                (Sublist-refl (entries_of bytes ls))))

  stock-send : (encoded : Bool) (id : ℕ) (r : Records) → stock (send encoded id r).0 ≡ stock r
  unfolding send records_of
  stock-send encoded id r = ground (arith, take-drop (min (length r.queue) max_batch) r.queue)

  stock-acknowledge :
      (id : ℕ) (r : Records)
      → records_of (acknowledge id r).1 ++ stock (acknowledge id r).0 ≡ stock r
  unfolding acknowledge records_of
  stock-acknowledge id r = ground arith

  stock-call :
      (c : Call) (r : Records)
      → Sublist (acked c r ++ stock (call bytes c r)) (stock r ++ entries bytes c)
  unfolding call acked entries ended
  stock-call (lines ls) r = stock-add_lines ls r
  stock-call (ends l e) r = stock-add (with_network l) (some e) r
  stock-call (sends encoded id) r =
      same_stock (stock (send encoded id r).0) (stock r) (stock-send encoded id r)
  stock-call (acks id) r =
      same_stock (records_of (acknowledge id r).1 ++ stock (acknowledge id r).0) (stock r)
        (stock-acknowledge id r)

  stock-calls :
      (cs : List Call) (r : Records)
      → Sublist (all_acked bytes cs r ++ stock (calls bytes cs r)) (stock r ++ all_entries bytes cs)
  unfolding calls all_acked all_entries
  stock-calls [] r = same_stock (stock r) (stock r) refl
  stock-calls (c ∷ cs) r =
      let r' = call bytes c r in
      let rest = all_acked bytes cs r' ++ stock (calls bytes cs r') in
      let more = all_entries bytes cs in
      let a : Sublist (acked c r ++ rest) (acked c r ++ (stock r' ++ more)) =
        Sublist-append (acked c r) (acked c r) rest (stock r' ++ more) (Sublist-refl (acked c r))
          (stock-calls cs r') in
      let b : Sublist ((acked c r ++ stock r') ++ more) ((stock r ++ entries bytes c) ++ more) =
        Sublist-append (acked c r ++ stock r') (stock r ++ entries bytes c) more more
          (stock-call c r) (Sublist-refl more) in
      let a' =
        subst (λ ys. Sublist (acked c r ++ rest) ys)
          (sym (append_assoc (acked c r) (stock r') more)) a in
      let b' =
        subst (λ ys. Sublist ((acked c r ++ stock r') ++ more) ys)
          (append_assoc (stock r) (entries bytes c) more) b in
      subst (λ xs. Sublist xs (stock r ++ (entries bytes c ++ more)))
        (sym (append_assoc (acked c r) (all_acked bytes cs r') (stock (calls bytes cs r'))))
        (Sublist-trans _ _ _ a' b')

  -- After any calls of new records: the records that were acknowledged, then those of the batch that
  -- waits for its acknowledgement, then those queued are records that were made, each at most as
  -- often as it was made and in the order in which they were made. The number of those that are
  -- missing there is what is counted as dropped. The queue and the batch keep their bounds.
  pub calls_kept :
      (cs : List Call)
      → Sublist (all_acked bytes cs new ++ stock (calls bytes cs new)) (all_entries bytes cs)
        × (held (calls bytes cs new) + all_settled bytes cs new ≡ all_made bytes cs)
        × IsBounded (calls bytes cs new)
  unfolding new records_of
  calls_kept cs = (stock-calls cs new, (calls_conserved bytes cs).0, (calls_conserved bytes cs).1)
