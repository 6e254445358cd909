-- ===== src/Transport/Client/Sending.antt =====
-- Key material never leaves: a body with a string that fails its test is stopped before the network.
use dtp_discovery_agent.Common.{String, ◌≡◌, true, some, List}
use dtp_discovery_agent.Transport.Guard.{
  Json, string_carries, refuses_outbound, StringIn, carries_key-StringIn,
}
use dtp_discovery_agent.Transport.Client.{Host, Client, Body, failure, key_material, do_request}

module _ (h : Host) where
  open h use {State, marshal, key_tests}

  -- Where the body of a request, as JSON, holds anywhere a string that fails the test of the field
  -- it stands under, `do` returns the key-material error and sends nothing: the world is as it was.
  pub do_request_refused :
      (c : Client) (path : String) (headers : List (String × String)) (body : Body) (s : State)
      (raw f v : String) (doc : Json)
      → marshal body ≡ some raw
      → key_tests.decode raw ≡ some doc
      → StringIn f v "" doc
      → string_carries key_tests f v ≡ true
      → do_request h c path headers body s ≡ (failure 0 key_material, s)
  unfolding do_request refuses_outbound
  do_request_refused c path headers body s raw f v doc m d i bad =
      rw (m, do_request) (rw (d, refuses_outbound) (rw (carries_key-StringIn key_tests f v bad i)))
