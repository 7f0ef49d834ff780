-- ===== src/Server/Session/Bound.antt =====
-- A client's UDP address has the IP address of its TCP connection.
use wa_game.Prelude.{
  ℕ, ◌≡◌, arith, some, ◌==◌, true, Bool-cases, Option-cases, if_either, not, inl, inr,
}
use wa_game.Platform.{Platform, IsGht}
use wa_game.Server.{Address, Client, Server}
use wa_game.Server.Session.{Verdict, take_packet, verify_client, verify_session}

module _ (platform : Platform) where
  open platform use {ght}

  abbrev pub ClientBound : Client platform → Type 0
  ClientBound client = client.udp_connected ≡ true → client.udp.ip ≡ client.tcp_ip

  abbrev pub IsBound : Server platform → Type 0
  IsBound server =
      (k : ℕ) (client : Client platform)
      → ght.get server.clients k ≡ some client
      → ClientBound client

  take_packet-IsBound :
      (laws : IsGht ght) (server : Server platform) (session : ℕ) (old client : Client platform)
      → IsBound server
      → ght.get server.clients session ≡ some old
      → ClientBound client
      → IsBound (take_packet platform server session client).0
  unfolding take_packet
  take_packet-IsBound laws server session old client bound got b k c e =
      let stored = record client { last_packet_time = server.start_time_s } in
      elim (Bool-cases (k == session)) [
        | inl same ↦
            let eq : some stored ≡ some c = rw (laws.get-write, same, got) at e in ground (arith, b)
        | inr other ↦
            let eq : ght.get server.clients k ≡ some c = rw (laws.get-write, other) at e in
            bound k c eq
      ]

  verify_client-IsBound :
      (laws : IsGht ght) (server : Server platform) (session : ℕ) (source : Address platform)
      (client : Client platform)
      → IsBound server
      → ght.get server.clients session ≡ some client
      → IsBound (verify_client platform server session source client).0
  unfolding verify_client
  verify_client-IsBound laws server session source client bound got =
      let Kept : Server platform × Verdict platform → Type 0 = λ r. IsBound r.0 in
      if_either Kept client.udp_connected
        (λ on.
          take_packet-IsBound laws server session client client bound got
            (bound session client got))
        (λ off.
          if_either Kept (not (client.tcp_ip == source.ip)) (λ other. bound)
            (λ same.
              take_packet-IsBound laws server session client
                (record client { udp = source; udp_connected = true }) bound got
                (λ _. ground arith)))

  -- If every client with a UDP address has in it the IP address of its TCP connection, this holds
  -- again after any UDP packet was verified; the table obeys its laws.
  pub verify_session-IsBound :
      (laws : IsGht ght) (server : Server platform) (session : ℕ) (source : Address platform)
      → IsBound server
      → IsBound (verify_session platform server session source).0
  unfolding verify_session
  verify_session-IsBound laws server session source bound =
      elim (Option-cases (ght.get server.clients session)) [
        | inl absent ↦ rw absent bound
        | inr (client, got) ↦
            rw got (verify_client-IsBound laws server session source client bound got)
      ]
