-- ===== src/Ledger.antt =====
-- internal/xray/ledger/ledger.go: the account of the connections to Xray, which the kernel's dumps
-- and close notices and the lines of the access log tell of. The mutex makes each method one step.
-- Times are numbers of seconds, 0 the zero time. The sockets are a list in the order in which they
-- were added: `sockets` of the source is that list by cookie, `byConn` its sublist of a connection.
pub mod Sockets
pub mod Claims
pub mod Dumps
pub mod Follows
pub mod Changes
pub mod Account
pub mod Candidate
pub mod Seen
pub mod Kernel
pub mod Counted
pub mod History
pub mod Present
pub mod Tests
use akastr_agent.Base.{
  ℕ, ◌+◌, ◌-◌, String, Bool, true, false, ◌&&◌, ◌||◌, not, Option, none, some, List, Assoc, ltb,
  leb, ◌==◌, is, String-discrete, ℕ_discrete,
}

-- netip.AddrPort
pub record AddrPort : Type 0 where
  pub ip : String
  pub port : ℕ

instance pub AddrPort-discrete : Discrete AddrPort
AddrPort-discrete = hlevel (String-discrete, ℕ_discrete)

-- accesslog.Conn
pub record Conn : Type 0 where
  pub port : ℕ
  pub remote : AddrPort

instance pub Conn-discrete : Discrete Conn
Conn-discrete = hlevel (AddrPort-discrete, ℕ_discrete)

-- accesslog.Line, without its destination and outbound, which the ledger only passes on.
pub record Line : Type 0 where
  pub conn : Conn
  pub email : String
  pub at : ℕ
  pub tcp : Bool
  pub udp : Bool

-- sockdiag.Conn
pub record KernelConn : Type 0 where
  pub cookie : ℕ
  pub local : AddrPort
  pub remote : AddrPort
  pub bytes_acked : ℕ
  pub bytes_received : ℕ

-- socket; the line of a connection that is nobody's is none.
pub record Socket : Type 0 where
  pub cookie : ℕ
  pub conn : Conn
  pub local : AddrPort
  pub email : String
  pub line : Option Line
  pub requests : ℕ
  pub acked : ℕ
  pub received : ℕ
  pub after : ℕ
  pub closed_at : ℕ
  pub noticed : Bool
  pub missing : ℕ
  pub disputed : Bool

-- claimKey
pub record ClaimKey : Type 0 where
  pub conn : Conn
  pub tcp : Bool

instance pub ClaimKey-discrete : Discrete ClaimKey
ClaimKey-discrete = hlevel (Conn-discrete)

pub record Claim : Type 0 where
  pub line : Line
  pub arrived : ℕ
  pub requests : ℕ
  pub rival : ℕ

pub record Ended : Type 0 where
  pub line : Option Line
  pub at : ℕ
  pub up : ℕ
  pub down : ℕ
  pub requests : ℕ

-- Flow
pub data Proto : Type 0 where
  tcp udp : Proto

pub record Flow : Type 0 where
  pub proto : Proto
  pub local_ip : Option String
  pub local_port : ℕ
  pub remote : AddrPort

-- `tells` is whether the ledger has a function to tell of connections that ended.
pub record Ledger : Type 0 where
  pub tells : Bool
  pub dumped : ℕ
  pub started : ℕ
  pub tail : ℕ
  pub dump_failed : Bool
  pub sockets : List Socket
  pub claims : Assoc ClaimKey Claim
  pub finished : List Ended

abbrev pub missing_dumps : ℕ
missing_dumps = 2

abbrev pub keep_closed : ℕ
keep_closed = 30

abbrev pub claim_wait : ℕ
claim_wait = 10

abbrev pub udp_keep : ℕ
udp_keep = 7200

abbrev pub max_claims : ℕ
max_claims = 65536

-- !s.closedAt.IsZero() && at.After(s.closedAt): the connection had closed by then.
abbrev pub closed_before : ℕ → Socket → Bool
closed_before at s = not (s.closed_at == 0) && ltb s.closed_at at
