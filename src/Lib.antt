-- ===== src/Lib.antt =====
-- The discovery agent of the Digital Trust Platform, as a model of its Go code: the agent collects
-- the certificates of a host, uploads them to the server under its own key, keeps its schedule and
-- a log where the platform keeps none, and shows its state in the notification area.
--
-- Parts, and the files that model them:
-- - Common: numbers, Boolean tests, lists, Go's signed integers where a value may be negative, the
--   functions of package strings (Text) and sorting.
-- - Parse/Certificate and Parse/Chain model internal/parse/chain.go: the index of a store
--   (new_store is NewStore), the memoised signature checks within a budget (signed is
--   Store.signed), the choice of an issuer (issuer_of), the chain (chain_for) and the leaves
--   (leaves). A *x509.Certificate is an address, so that the same certificate read twice is two
--   addresses. Its children prove what each keeps, its checks, its index and its result: Filing
--   reads the index off the certificates it was given, and Reference is the walk without a budget.
-- - Parse/Keystore models internal/parse/keystore.go: the bounds-checked reader (Reader is
--   beReader) and JavaKeystore over the bytes of a file.
-- - Parse/Pem models internal/parse/parse.go: ContainsPrivateKey, Certificates, PKCS12, EncodePEM.
-- - Collect/Result and Collect/Run model internal/collect/collect.go and run.go: the results of the
--   collectors, observe with the cap it shares with all other collectors, and Run.
-- - Collect/Config models what both readers of server configurations share: Reader is configReader
--   of internal/collect/serverconfig.go, Directives the tree of nginx.go and apache.go, and
--   References what apache.go says of certificates and keys (pair_certificates, key_reference).
-- - Collect/Nginx and Collect/Apache model internal/collect/nginx.go and apache.go: tokenize and
--   parse_block, logical_lines, apache_fields and parse_section, and the walks to the sites.
-- - Collect/ServerConfig models the collector of internal/collect/serverconfig.go, Collect and
--   record, and ServerNamesFrom, which the listeners' Inform takes up.
-- - Collect/Sockets and Collect/Listener model internal/collect/listener_sockets.go and
--   listener.go: the host's socket table, the probes of each socket with the verdict on a
--   handshake, and Collect.
-- - Collect/Iis models internal/collect/iis.go: bindings, their registry keys, and the TLS sites.
-- - Collect/Walk and Collect/FileSystem model internal/collect/fs.go: the walk below a root, and
--   what is made of a file. The state of the walk has, beside the code's own, a log of the files
--   that were opened (reads).
-- - Collect/Keystores models internal/collect/keystore.go: what is made of a keystore's entries.
--   Its walk is that of Collect/Walk, the code of both files being the same.
-- - Transport/Guard, Transport/Client and Transport/Report model internal/transport/guard.go,
--   client.go, assertion.go and run.go: the guard on what leaves the host, the requests with their
--   tokens, and the upload of a scan in pages.
-- - Service/Loop and Service/Log model internal/service/loop.go and log.go.
-- - Tray/View models internal/tray/view.go, with PublicStatus and its phases from
--   internal/state/public.go.
-- - Command/PublicError models cmd/dtp-agent/publicerror.go and outcome.go: the words for an error
--   that every user of the machine may read.
-- The collectors of files, keystores, server configurations and listeners are Sweepers (sweeper in
-- their modules) that a run takes. A run of the collectors (Collect.Run.run) yields the results
-- that Transport.Report.report uploads through the client, whose every request passes the guard;
-- Loop's work is that cycle.
--
-- Conventions. Code that changes state takes the state and returns it. An error is a value; where
-- the code formats a text, the model has a constructor with the numbers and names in it, or the
-- text itself. Times are numbers of nanoseconds or seconds as each file says. Machine integers that
-- only count are unbounded: counts stay below the caps that the theorems give. A time that a server
-- names in seconds wraps as an int64 of nanoseconds does (seconds, in Common/Ints). Slices are lists.
--
-- Bounds and fuel. climb recurs on the room left in a chain, max_chain_depth, as the source's loop
-- does; chunk_from has as fuel the length of the list it cuts, which is enough since every page
-- takes at least one item; verify_cost reads the exponent's bits from 64 of fuel, as many as an int
-- has. parse_block and parse_section have one more than the number of tokens or lines, and the
-- loops over PEM blocks one more than the length of the text; a file is read with max_depth + 1 as
-- the room for nested includes, which is the source's own bound. past_schemes has the length of the
-- value. All other loops recur on their list.
--
-- What comes from outside is a parameter: World (the parsed certificates, CheckSignature, the clock
-- and the context, in Parse/Certificate), KeyTests (the two tests that the guard applies to a
-- string), Host (network, codec, clock and signature, in Transport/Client), Sweeper (a collector,
-- in Collect/Run; IsSweeping says that it records only through observe), Os (the system's answers
-- to the log), Files (the file system and package filepath), Codecs (pem.Decode, x509's parsers,
-- PKCS#12), ServerHost, WalkHost, FsHost, KeystoreHost and ListenerHost (these with the clock, what
-- IIS reports and what a connection came to), Net and System (package net and the socket tables),
-- Words (the formats of the icon's texts and the parsers of times and addresses). Theorems name
-- what they ask of these, and the modules named Examples apply them to concrete ones.
--
-- Texts of files are taken for their characters, and a position in a lowered text for one in the
-- text itself (Collect/Config/References says where).
--
-- Not modelled are the collector of operating system stores (internal/collect/osstore.go), what IIS
-- reports through the registry (iis_windows.go), the state directory (internal/state/state.go and
-- the writing half of public.go), and the rest of the commands (cmd/dtp-agent). Nor are the calls
-- of Windows and macOS interfaces (files ending in _windows.go and _darwin.go, cmd/dtp-agent-tray),
-- the drawing of the icon (internal/tray/icon.go) and the packaging.
pub mod Common
pub mod Parse
pub mod Collect
pub mod Transport
pub mod Service
pub mod Tray
pub mod Command
