-- ===== src/ConnectionRecords.antt =====
-- internal/modules/connectionrecords/module.go: the queue of connection records and the batch that
-- waits for its acknowledgement. The mutex makes each method one step; the formats of times and
-- addresses are the source's, so a time and an address stand for their texts. The signals that wake
-- Run are left out: a call of `send` may come at any time.
pub mod Counts
pub mod Conserved
pub mod Order
mod Tests
use akastr_agent.Base.{
  ℕ, zero, suc, ◌+◌, ◌-◌, ◌*◌, ◌/◌, ◌<◌, min, String, Bool, true, false, not, ◌||◌, ◌==◌, ltb,
  Option, none, some, List, [], ◌∷◌, ◌++◌, length, drop, is, if◌then◌else◌, String-discrete,
}
use akastr_agent.Xui.Targets.{owned}

-- accesslog.Line, as far as the records go; a time that is 0 is the zero time.
pub record Line : Type 0 where
  pub email : String
  pub written : ℕ
  pub source : String
  pub network : String
  pub host : String
  pub port : ℕ
  pub outbound : String
  pub blocked : Bool
  pub backlog : Bool

-- ending
pub record Ending : Type 0 where
  pub ended_at : ℕ
  pub up : ℕ
  pub down : ℕ
  pub requests : ℕ

-- record
pub record Entry : Type 0 where
  pub at : ℕ
  pub email : String
  pub source : String
  pub network : String
  pub host : String
  pub port : ℕ
  pub outbound : String
  pub blocked : Bool
  pub ending : Option Ending

-- The pending report: its id, and the batch in its data
pub record Batch : Type 0 where
  pub report_id : ℕ
  pub records : List Entry
  pub dropped : ℕ

pub record Records : Type 0 where
  pub queue : List Entry
  pub dropped : ℕ
  pub pending : Option Batch

unfoldable pub new : Records
new = record { queue = []; dropped = 0; pending = none }

abbrev pub max_queued : ℕ
max_queued = 20000

abbrev pub max_batch : ℕ
max_batch = 1000

abbrev pub max_outbound : ℕ
max_outbound = 128

abbrev is_text : String → String → Bool
is_text s t = is (String-discrete s t)

abbrev pub take : {A : Type 0} → ℕ → List A → List A
take zero xs = []
take (suc n) [] = []
take (suc n) (x ∷ xs) = x ∷ take n xs

-- The lines of which add makes no record; `bytes` is the number of bytes of a text.
unfoldable pub unreadable : (String → ℕ) → Line → Bool
unreadable bytes l =
    not (owned l.email)
    || l.written == 0
    || is_text l.host ""
    || is_text l.outbound ""
    || ltb max_outbound (bytes l.outbound)

unfoldable pub entry_of : Line → Option Ending → Entry
entry_of l e = record {
  at = l.written;
  email = l.email;
  source = l.source;
  network = l.network;
  host = l.host;
  port = l.port;
  outbound = l.outbound;
  blocked = l.blocked;
  ending = e;
}

-- A tenth is dropped from a queue that is too long.
unfoldable pub trim : Records → Records
trim r =
    let many = length r.queue - max_queued * 9 / 10 in
    if ltb max_queued (length r.queue)
    then record r { queue = drop many r.queue; dropped = r.dropped + many }
    else r

unfoldable pub add : (String → ℕ) → Line → Option Ending → Records → Records
add bytes l e r =
    if unreadable bytes l then r else trim (record r { queue = r.queue ++ entry_of l e ∷ [] })

-- Lines
unfoldable pub add_lines : (String → ℕ) → List Line → Records → Records
add_lines bytes [] r = r
add_lines bytes (l ∷ ls) r = add_lines bytes ls (if l.backlog then r else add bytes l none r)

-- Ended
unfoldable pub ended : (String → ℕ) → Line → Ending → Records → Records
ended bytes l e r =
    add bytes (if is_text l.network "" then record l { network = "tcp" } else l) (some e) r

-- send: the records afterwards, and the batch that is published; `encoded` is whether json.Marshal
-- accepts it, and `id` the id made for a new one.
unfoldable pub send : Bool → ℕ → Records → Records × Option Batch
send encoded id r = elim r.pending [
  | some b ↦ (r, some b)
  | none ↦
      let n = min (length r.queue) max_batch in
      let b : Batch = record { report_id = id; records = take n r.queue; dropped = r.dropped } in
      if not (ltb 0 (length r.queue) || ltb 0 r.dropped) || not encoded
      then (r, none)
      else (record { queue = drop n r.queue; dropped = 0; pending = some b }, some b)
]

-- Acknowledge, and the batch that it settles
unfoldable pub acknowledge : ℕ → Records → Records × Option Batch
acknowledge id r = elim r.pending [
  | none ↦ (r, none)
  | some b ↦ if b.report_id == id then (record r { pending = none }, some b) else (r, none)
]
