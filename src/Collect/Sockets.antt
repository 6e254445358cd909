-- ===== src/Collect/Sockets.antt =====
-- The host's listening sockets (internal/collect/listener_sockets.go). Package net's addresses,
-- hex.DecodeString, strconv and the scanner's lines are parameters. An address is its bytes.
use dtp_discovery_agent.Common.{
  ℕ, String, Bool, ◌&&◌, ◌||◌, Option, none, some, List, [], ◌∷◌, ◌++◌, ◌⊎◌, inl, inr, ltb, ◌==◌,
  str_eq, contains, if◌then◌else◌, length,
}
use Prim.Native.Char.{Char}
use dtp_discovery_agent.Common.Text.{runes, of_runes, cut_runes, fields, join}
use dtp_discovery_agent.Common.Sorting.{sort_by, string_le}
mod Once
mod Examples

pub record Socket : Type 0 where
  pub ip : List ℕ
  pub port : ℕ

pub record Net : Type 0 where
  pub ip_string : List ℕ → String
  pub is_unspecified : List ℕ → Bool
  pub is_ipv4 : List ℕ → Bool  -- To4() != nil
  pub ipv4 : ℕ → ℕ → ℕ → ℕ → List ℕ
  pub ipv6_loopback : List ℕ
  pub join_host_port : String → String → String
  pub itoa : ℕ → String
  pub decode_hex : String → Option (List ℕ)
  pub parse_uint : String → Option ℕ  -- in base 16, of 16 bits

-- Opening one of the kernel's tables and scanning it: an error, or its lines and the scanner's error
pub record System : Type 0 where
  pub goos : String
  pub open_table : String → String ⊎ (List String × Option String)

abbrev pub proc_net_paths : List String
proc_net_paths = "/proc/net/tcp" ∷ "/proc/net/tcp6" ∷ []

abbrev pub proc_listen_state : String
proc_listen_state = "0A"

-- the bytes of each word of four in reverse order
unfoldable pub swap_words : List ℕ → List ℕ
swap_words (a ∷ b ∷ c ∷ d ∷ rest) = d ∷ c ∷ b ∷ a ∷ swap_words rest
swap_words rest = []

-- why the socket table is not known in full
pub data SocketError : Type 0 where
  no_socket_table : String → SocketError  -- "this agent cannot read the socket table on %s ..."
  partial_table : List String → SocketError  -- "reading the socket table: %s"

module _ (n : Net) where
  open n use {
    ip_string, is_unspecified, is_ipv4, ipv4, ipv6_loopback, join_host_port, itoa, decode_hex,
    parse_uint,
  }

  abbrev pub loopback : List ℕ
  loopback = ipv4 127 0 0 1

  unfoldable pub dial_address : Socket → String
  dial_address s =
      let ip =
        if is_unspecified s.ip then (if is_ipv4 s.ip then loopback else ipv6_loopback) else s.ip in
      join_host_port (ip_string ip) (itoa s.port)

  unfoldable pub bound_address : Socket → String
  bound_address s = join_host_port (ip_string s.ip) (itoa s.port)

  unfoldable pub parse_hex_address : String → Option (List ℕ)
  parse_hex_address s = elim (decode_hex s) [
    | none ↦ none
    | some raw ↦ if length raw == 4 || length raw == 16 then some (swap_words raw) else none
  ]

  abbrev pub socket_at : Option (List ℕ) → Option ℕ → Option Socket
  socket_at none port = none
  socket_at (some ip) none = none
  socket_at (some ip) (some port) =
      if port == 0 then none else some (record { ip = ip; port = port })

  -- the local address of a line
  unfoldable pub local_socket : List Char × Option (List Char) → Option Socket
  local_socket (ip, none) = none
  local_socket (ip, some port) =
      socket_at (parse_hex_address (of_runes ip)) (parse_uint (of_runes port))

  -- the fields of a line
  unfoldable pub line_socket : List String → Option Socket
  line_socket (sl ∷ local ∷ remote ∷ state ∷ more) =
      if str_eq state proc_listen_state then local_socket (cut_runes b':' (runes local)) else none
  line_socket words = none

  abbrev pub with_socket : Option Socket → List Socket → List Socket
  with_socket none ss = ss
  with_socket (some s) ss = s ∷ ss

  unfoldable pub sockets_of : List String → List Socket
  sockets_of [] = []
  sockets_of (line ∷ lines) = with_socket (line_socket (fields line)) (sockets_of lines)

  -- parseProcNet, of a table's lines: the first is the column headings
  unfoldable pub parse_proc_net : List String → List Socket
  parse_proc_net [] = []
  parse_proc_net (headings ∷ lines) = sockets_of lines

  -- one round of the loop of listeningSockets: the sockets, or the error
  unfoldable pub table_sockets :
      String → String ⊎ (List String × Option String) → List Socket × List String
  table_sockets path (inl e) = ([], e ∷ [])
  table_sockets path (inr (lines, some e)) = ([], join "" (path ∷ ": " ∷ e ∷ []) ∷ [])
  table_sockets path (inr (lines, none)) = (parse_proc_net lines, [])

  unfoldable pub read_tables : System → List String → List Socket × List String
  read_tables sys [] = ([], [])
  read_tables sys (path ∷ paths) =
      let (found, errs) = table_sockets path (sys.open_table path) in
      let (more, later) = read_tables sys paths in (found ++ more, errs ++ later)

  abbrev pub partial : List String → Option SocketError
  partial [] = none
  partial (e ∷ es) = some (partial_table (e ∷ es))

  unfoldable pub listening_sockets : System → List Socket × Option SocketError
  listening_sockets sys =
      if str_eq sys.goos "linux"
      then (let (all, errs) = read_tables sys proc_net_paths in (all, partial errs))
      else ([], some (no_socket_table sys.goos))

  -- the key of a listener: a wildcard bind has its port alone
  unfoldable pub key_of : Socket → String
  key_of s = if is_unspecified s.ip then join "" ("*:" ∷ itoa s.port ∷ []) else bound_address s

  unfoldable pub first_of_each : List String → List Socket → List Socket
  first_of_each seen [] = []
  first_of_each seen (s ∷ ss) =
      let skipped = first_of_each seen ss in
      let kept = first_of_each (key_of s ∷ seen) ss in
      if contains seen (key_of s) then skipped else s ∷ kept

  -- by port, then by address
  abbrev pub comes_first : Socket → Socket → Bool
  comes_first s t =
      ltb s.port t.port || (s.port == t.port && string_le (ip_string s.ip) (ip_string t.ip))

  unfoldable pub dedupe : List Socket → List Socket
  dedupe sockets = sort_by comes_first (first_of_each [] sockets)
