-- ===== src/Collect/Sockets/Examples.antt =====
-- A table of three listeners, two of them on one port.
use dtp_discovery_agent.Common.{
  min, ◌≡◌, refl, true, some, List, [], ◌∷◌, ◌==◌, length, if◌then◌else◌, map,
}
use dtp_discovery_agent.Common.Text.{codes, join}
use dtp_discovery_agent.Collect.Sockets.{
  Socket, Net, swap_words, parse_proc_net, sockets_of, line_socket, local_socket, parse_hex_address,
  dedupe,
}
use dtp_discovery_agent.Collect.Sockets.Once.{count_key, count_key-dedupe}

-- a network whose address texts are short
abbrev toy_net : Net
toy_net = record {
  ip_string = λ ip. elim ip [ [] ↦ "none" | ◌∷◌ b bs ↦ if b == 0 then "0.0.0.0" else "127.0.0.1" ];
  is_unspecified = λ ip. elim ip [ [] ↦ true | ◌∷◌ b bs ↦ b == 0 ];
  is_ipv4 = λ ip. length ip == 4;
  ipv4 = λ a b c d. a ∷ b ∷ c ∷ d ∷ [];
  ipv6_loopback = 1 ∷ [];
  join_host_port = λ host port. join ":" (host ∷ port ∷ []);
  itoa = λ p. if p == 443 then "443" else "22";
  decode_hex = λ s. some (map (λ n. if n == 48 then 0 else 127) (codes s));
  parse_uint = λ s. some 443;
}

own_port :
    parse_proc_net toy_net ("sl local" ∷ " 0: 0001:01BB 0:0 0A 0" ∷ " 1: 0001:01BB 0:0 01" ∷ [])
    ≡ record { ip = 127 ∷ 0 ∷ 0 ∷ 0 ∷ []; port = 443 } ∷ []
unfolding parse_proc_net sockets_of line_socket local_socket parse_hex_address swap_words
own_port = refl

abbrev three_sockets : List Socket
three_sockets =
    record { ip = 0 ∷ []; port = 443 }
    ∷ record { ip = 0 ∷ 0 ∷ []; port = 443 }
    ∷ record { ip = 127 ∷ []; port = 22 }
    ∷ []

count_key-dedupe_example :
    count_key toy_net "*:443" (dedupe toy_net three_sockets)
    ≡ min 1 (count_key toy_net "*:443" three_sockets)
count_key-dedupe_example = count_key-dedupe toy_net "*:443" three_sockets
