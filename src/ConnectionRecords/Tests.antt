-- ===== src/ConnectionRecords/Tests.antt =====
-- The records on concrete calls.
use akastr_agent.Base.{ℕ, String, false, List, [], ◌∷◌, ◌+◌, ◌++◌, ◌≡◌, true}
use akastr_agent.ConnectionRecords.{Line, Ending, new}
use akastr_agent.ConnectionRecords.Counts.{held, IsBounded}
use akastr_agent.ConnectionRecords.Conserved.{
  Call, lines, ends, sends, acks, calls, all_made, all_settled,
}
use akastr_agent.ConnectionRecords.Order.{Sublist, all_acked, stock, all_entries, calls_kept}

abbrev short : String → ℕ
short s = 6

abbrev line : Line
line = record {
  email = "ak-user";
  written = 7;
  source = "1.2.3.4:5000";
  network = "tcp";
  host = "example.com";
  port = 443;
  outbound = "direct";
  blocked = false;
  backlog = false;
}

abbrev end : Ending
end = record { ended_at = 9; up = 1; down = 2; requests = 1 }

abbrev history : List Call
history = lines (line ∷ line ∷ []) ∷ sends true 1 ∷ ends line end ∷ acks 1 ∷ []

calls_kept_example :
    Sublist
      (all_acked short history new ++ stock (calls short history new))
      (all_entries short history)
    × (held (calls short history new) + all_settled short history new ≡ all_made short history)
    × IsBounded (calls short history new)
calls_kept_example = calls_kept short history
