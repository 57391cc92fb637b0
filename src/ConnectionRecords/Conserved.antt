-- ===== src/ConnectionRecords/Conserved.antt =====
-- That no record is lost without being counted.
use akastr_agent.Base.{
  ℕ, ◌+◌, min, String, Bool, true, false, not, ◌||◌, ◌==◌, ltb, Option, none, some, List, [], ◌∷◌,
  length, drop, length-drop, is, if◌then◌else◌, String-discrete, ◌≡◌, refl, ap, arith,
}
use akastr_agent.ConnectionRecords.{
  Line, Ending, Batch, Records, new, add_lines, max_batch, take, unreadable, add, ended, send,
  acknowledge,
}
use akastr_agent.ConnectionRecords.Counts.{
  batch_size, held, batch_length, IsBounded, readable, length-take, add_held,
}

-- What calls the records, and what a call takes in
pub data Call : Type 0 where
  lines : List Line → Call
  ends : Line → Ending → Call
  sends : (encoded : Bool) (id : ℕ) → Call
  acks : (id : ℕ) → Call

unfoldable pub call : (String → ℕ) → Call → Records → Records
call bytes (lines ls) r = add_lines bytes ls r
call bytes (ends l e) r = ended bytes l e r
call bytes (sends encoded id) r = (send encoded id r).0
call bytes (acks id) r = (acknowledge id r).0

unfoldable pub made_of : (String → ℕ) → List Line → ℕ
made_of bytes [] = 0
made_of bytes (l ∷ ls) = (if l.backlog then 0 else readable bytes l) + made_of bytes ls

-- How many records a call makes, and how many it settles
unfoldable pub made : (String → ℕ) → Call → ℕ
made bytes (lines ls) = made_of bytes ls
made bytes (ends l e) = readable bytes l
made bytes _ = 0

unfoldable pub settles : Call → Records → ℕ
settles (acks id) r = batch_size (acknowledge id r).1
settles _ r = 0

unfoldable pub calls : (String → ℕ) → List Call → Records → Records
calls bytes [] r = r
calls bytes (c ∷ cs) r = calls bytes cs (call bytes c r)

unfoldable pub all_made : (String → ℕ) → List Call → ℕ
all_made bytes [] = 0
all_made bytes (c ∷ cs) = made bytes c + all_made bytes cs

unfoldable pub all_settled : (String → ℕ) → List Call → Records → ℕ
all_settled bytes [] r = 0
all_settled bytes (c ∷ cs) r = settles c r + all_settled bytes cs (call bytes c r)

held-new : held new ≡ 0
unfolding held new batch_size
held-new = refl

new-IsBounded : IsBounded new
unfolding new batch_length
new-IsBounded = (omega arith, omega arith)

module _ (bytes : String → ℕ) where
  lines_held :
      (ls : List Line) (r : Records)
      → IsBounded r
      → (held (add_lines bytes ls r) ≡ held r + made_of bytes ls) × IsBounded (add_lines bytes ls r)
  unfolding add_lines made_of
  lines_held [] r v = (omega arith, v)
  lines_held (l ∷ ls) r v = go l.backlog (lines_held ls)
    where
      go :
          (b : Bool)
          → ((s : Records)
              → IsBounded s
              → (held (add_lines bytes ls s) ≡ held s + made_of bytes ls)
                × IsBounded (add_lines bytes ls s))
          → (held (add_lines bytes ls (if b then r else add bytes l none r))
              ≡ held r + ((if b then 0 else readable bytes l) + made_of bytes ls))
            × IsBounded (add_lines bytes ls (if b then r else add bytes l none r))
      go true ih = (omega (arith, (ih r v).0), (ih r v).1)
      go false ih = (sum, (ih added a.1).1)
        where
          added : Records
          added = add bytes l none r

          a : (held added ≡ held r + readable bytes l) × IsBounded added
          a = add_held bytes l none r v

          sum : held (add_lines bytes ls added) ≡ held r + (readable bytes l + made_of bytes ls)
          sum = omega (arith, (ih added a.1).0, a.0)

  ended_held :
      (l : Line) (e : Ending) (r : Records)
      → IsBounded r
      → (held (ended bytes l e r) ≡ held r + readable bytes l) × IsBounded (ended bytes l e r)
  unfolding ended readable unreadable
  ended_held l e r v = go (is (String-discrete l.network ""))
    where
      go :
          (b : Bool)
          → (held (add bytes (if b then record l { network = "tcp" } else l) (some e) r)
              ≡ held r + readable bytes l)
            × IsBounded (add bytes (if b then record l { network = "tcp" } else l) (some e) r)
      go true = add_held bytes (record l { network = "tcp" }) (some e) r v
      go false = add_held bytes l (some e) r v

  send_held :
      (encoded : Bool) (id : ℕ) (r : Records)
      → IsBounded r
      → (held (send encoded id r).0 ≡ held r) × IsBounded (send encoded id r).0
  unfolding send held batch_size batch_length
  send_held encoded id r v = go r.pending refl
    where
      n : ℕ
      n = min (length r.queue) max_batch

      b : Batch
      b = record { report_id = id; records = take n r.queue; dropped = r.dropped }

      sent : Records
      sent = record { queue = drop n r.queue; dropped = 0; pending = some b }

      new_batch : r.pending ≡ none → (held sent ≡ held r) × IsBounded sent
      new_batch q = (
        omega (arith, length-drop n r.queue, length-take n r.queue, ap batch_size q),
        (omega (arith, length-drop n r.queue, v.0), omega (arith, length-take n r.queue)),
      )

      choose :
          r.pending ≡ none
          → (t : Bool)
          → (held (if◌then◌else◌ {A = Records × Option Batch} t (r, none) (sent, some b)).0
              ≡ held r)
            × IsBounded (if◌then◌else◌ {A = Records × Option Batch} t (r, none) (sent, some b)).0
      choose q true = (refl, v)
      choose q false = new_batch q

      go :
          (p : Option Batch)
          → r.pending ≡ p
          → let s = elim p as (λ _. Records × Option Batch) [
            | some c ↦ (r, some c)
            | none ↦
                (if not (ltb 0 (length r.queue) || ltb 0 r.dropped) || not encoded
                  then (r, none)
                  else (sent, some b))
          ] in
            (held s.0 ≡ held r) × IsBounded s.0
      go (some c) q = (refl, v)
      go none q = choose q (not (ltb 0 (length r.queue) || ltb 0 r.dropped) || not encoded)

  acknowledge_held :
      (id : ℕ) (r : Records)
      → IsBounded r
      → (held (acknowledge id r).0 + batch_size (acknowledge id r).1 ≡ held r)
        × IsBounded (acknowledge id r).0
  unfolding acknowledge held batch_size batch_length
  acknowledge_held id r v = go r.pending refl
    where
      go :
          (p : Option Batch)
          → r.pending ≡ p
          → let s = elim p as (λ _. Records × Option Batch) [
            | none ↦ (r, none)
            | some b ↦
                (if b.report_id == id then (record r { pending = none }, some b) else (r, none))
          ] in
            (held s.0 + batch_size s.1 ≡ held r) × IsBounded s.0
      go none q = (omega arith, v)
      go (some b) q = settle (b.report_id == id)
        where
          settle :
              (t : Bool)
              → let s =
                  if◌then◌else◌ {A = Records × Option Batch} t
                    (record r { pending = none }, some b)
                    (r, none) in
                (held s.0 + batch_size s.1 ≡ held r) × IsBounded s.0
          settle true = (omega (arith, ap batch_size q), (v.0, omega arith))
          settle false = (omega arith, v)

  call_held :
      (c : Call) (r : Records)
      → IsBounded r
      → (held (call bytes c r) + settles c r ≡ held r + made bytes c) × IsBounded (call bytes c r)
  unfolding call settles made
  call_held (lines ls) r v = (omega (arith, (lines_held ls r v).0), (lines_held ls r v).1)
  call_held (ends l e) r v = (omega (arith, (ended_held l e r v).0), (ended_held l e r v).1)
  call_held (sends encoded id) r v =
      (omega (arith, (send_held encoded id r v).0), (send_held encoded id r v).1)
  call_held (acks id) r v =
      (omega (arith, (acknowledge_held id r v).0), (acknowledge_held id r v).1)

  calls_held :
      (cs : List Call) (r : Records)
      → IsBounded r
      → (held (calls bytes cs r) + all_settled bytes cs r ≡ held r + all_made bytes cs)
        × IsBounded (calls bytes cs r)
  unfolding calls all_settled all_made
  calls_held [] r v = (omega arith, v)
  calls_held (c ∷ cs) r v = (
    omega (arith, (calls_held cs (call bytes c r) (call_held c r v).1).0, (call_held c r v).0),
    (calls_held cs (call bytes c r) (call_held c r v).1).1,
  )

  -- After any calls of new records, each record that was made is queued, is in the batch that waits
  -- for its acknowledgement, was in one that was acknowledged, or is counted as dropped in one of
  -- these or for the next; and the queue and the batch keep their bounds.
  pub calls_conserved :
      (cs : List Call)
      → (held (calls bytes cs new) + all_settled bytes cs new ≡ all_made bytes cs)
        × IsBounded (calls bytes cs new)
  calls_conserved cs = (
    omega (arith, (calls_held cs new new-IsBounded).0, held-new),
    (calls_held cs new new-IsBounded).1,
  )
