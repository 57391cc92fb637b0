-- ===== src/NetPolicy/Tests.antt =====
-- An address just after a reserved range.
use akastr_agent.Base.{not, ◌≡◌}
use akastr_agent.NetPolicy.{ipv4, is_public_ipv4}
use akastr_agent.NetPolicy.Ranges.{within, reserved, is_public_ipv4-within}

is_public_ipv4-within_example : is_public_ipv4 (ipv4 2887778304) ≡ not (within reserved 2887778304)
is_public_ipv4-within_example = is_public_ipv4-within 2887778304
