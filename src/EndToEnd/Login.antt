-- ===== src/EndToEnd/Login.antt =====
-- The settings of client/src/config.rs and server/src/config.rs, and the authentication between the
-- two ends that they lead to.
use tuic.Prelude.{
  ℕ, ◌≡◌, ◌∙◌, sym, ap, refl, arith, true, List, [], ◌∷◌, map, some, ok, success, append-nil, All,
  Bool-cases, inl, inr,
}
use tuic.Protocol.Command.{authenticate, write_command}
use tuic.Protocol.Command.Validity.{IsCommand}
use tuic.Protocol.Command.RoundTrip.{read_command-write_command}
use tuic.Client.Connection.{new_connection, send_authentication}
use tuic.Client.Connection as Client
use tuic.Client.Config as ClientSettings
use tuic.Client.Config.Build as ClientBuild
use tuic.Server.Config as ServerSettings
use tuic.Server.Config.Build as ServerBuild
use tuic.Server.Dispatch.{contains, same_bytes}
use tuic.Server.Task.{Env}
use tuic.Server.Connection.{System, new_system, uni_stream_opened}
use tuic.Server.Connection as Server
use tuic.Server.Connection.Guarded.{authed}
use tuic.Server.Connection.Authentication.{presents, step-authed}

same_bytes-eq : (xs ys : List ℕ) → same_bytes xs ys ≡ true → xs ≡ ys
same_bytes-eq [] [] h = refl
same_bytes-eq [] (y ∷ ys) h = cc
same_bytes-eq (x ∷ xs) [] h = cc
same_bytes-eq (x ∷ xs) (y ∷ ys) h = ground (arith, same_bytes-eq xs ys)

same_bytes_refl : (xs : List ℕ) → same_bytes xs xs ≡ true
same_bytes_refl [] = refl
same_bytes_refl (x ∷ xs) = ground (arith, same_bytes_refl xs)

-- Two texts whose hashes do not collide are the same exactly when their hashes are.
same_bytes-image :
    (hash : List ℕ → List ℕ) (x y : List ℕ)
    → (hash x ≡ hash y → x ≡ y)
    → same_bytes (hash x) (hash y) ≡ same_bytes x y
same_bytes-image hash x y h = elim (Bool-cases (same_bytes (hash x) (hash y))) [
  | inl e ↦
      let same : x ≡ y = h (same_bytes-eq (hash x) (hash y) e) in
      e ∙ sym (ap (same_bytes x) (sym same) ∙ same_bytes_refl x)
  | inr e ↦ elim (Bool-cases (same_bytes x y)) [
    | inl f ↦
        let image : hash x ≡ hash y = ap hash (same_bytes-eq x y f) in
        (ap (same_bytes (hash x)) (sym image) ∙ same_bytes_refl (hash x)) ∙ sym f
    | inr f ↦ e ∙ sym f
  ]
]

-- No text of the list has the hash of `t` without being `t`.
abbrev pub NoCollision : (List ℕ → List ℕ) → List ℕ → List (List ℕ) → Type 0
NoCollision hash t ts = All (λ x. hash x ≡ hash t → x ≡ t) ts

contains-image :
    (hash : List ℕ → List ℕ) (t : List ℕ) (ts : List (List ℕ))
    → NoCollision hash t ts
    → contains (hash t) (map hash ts) ≡ contains t ts
contains-image hash t [] h = refl
contains-image hash t (x ∷ ts) (h, hs) =
    rw (same_bytes-image hash x t h, contains-image hash t ts hs) refl

-- The digest in the settings of a client that starts.
build-token_digest :
    (env : ClientSettings.Env) (raw : ClientSettings.RawConfig) (config : ClientBuild.Config)
    (t : List ℕ)
    → raw.relay.token ≡ some t
    → ClientBuild.build env raw ≡ ok config
    → config.token_digest ≡ env.hash t
unfolding ClientBuild.build
build-token_digest env raw config t given h = ground arith

-- The digests in the settings of a server that starts.
build-token :
    (env : ServerSettings.Env) (raw : ServerSettings.RawConfig) (config : ServerBuild.Config)
    → ServerBuild.build env raw ≡ ok config
    → config.token ≡ map env.hash raw.token
unfolding ServerBuild.build
build-token env raw config h = ground arith

presents-authenticate :
    (digest : List ℕ) (tokens : List (List ℕ))
    → IsCommand (authenticate digest)
    → presents tokens (write_command (authenticate digest) []) ≡ contains digest tokens
unfolding presents
presents-authenticate digest tokens fits =
    let parsed =
      rw (append-nil (write_command (authenticate digest) [])) at
        (read_command-write_command (authenticate digest) [] fits) in
    rw (presents, parsed) refl

-- A fresh connection is authenticated by a stream exactly when the stream presents a digest.
new_system-authed :
    (env : Env) (bytes : List ℕ) (tokens : List (List ℕ)) (size : ℕ)
    → authed (Server.step env (uni_stream_opened bytes) (new_system tokens size)).conn
      ≡ presents tokens bytes
unfolding new_system
new_system-authed env bytes tokens size =
    let s = step-authed env (uni_stream_opened bytes) (new_system tokens size) in ground arith

send_authentication-wire :
    (transport : Client.Env) (digest : List ℕ) (mode : Client.UdpRelayMode) (packet_size size : ℕ)
    → transport.open_stream ≡ success tt
    → transport.write ≡ success tt
    → transport.finish ≡ success tt
    → (send_authentication transport digest (new_connection mode packet_size size)).wire
      ≡ Client.uni_stream (write_command (authenticate digest) []) ∷ []
unfolding send_authentication new_connection
send_authentication-wire transport digest mode packet_size size o w f = ground arith

-- A client and a server that start with their settings, the client with the token `t`, where the two
-- hash it alike to 32 bytes and no token of the server has its hash without being it: what the
-- client writes first, where its stream works, is one stream, and that stream authenticates a fresh
-- connection of the server exactly when `t` is one of the server's tokens.
pub authed-send_authentication :
    (client : ClientSettings.Env) (raw_client : ClientSettings.RawConfig)
    (client_config : ClientBuild.Config) (server : ServerSettings.Env)
    (raw_server : ServerSettings.RawConfig) (server_config : ServerBuild.Config)
    (transport : Client.Env) (env : Env) (t : List ℕ) (size : ℕ)
    → raw_client.relay.token ≡ some t
    → ClientBuild.build client raw_client ≡ ok client_config
    → ServerBuild.build server raw_server ≡ ok server_config
    → client.hash t ≡ server.hash t
    → IsCommand (authenticate (server.hash t))
    → NoCollision server.hash t raw_server.token
    → transport.open_stream ≡ success tt
    → transport.write ≡ success tt
    → transport.finish ≡ success tt
    → let fresh_client =
        new_connection client_config.udp_relay_mode client_config.max_udp_relay_packet_size size in
      let fresh_server = new_system server_config.token server_config.max_udp_relay_packet_size in
      (bytes : List ℕ) × ((send_authentication transport client_config.token_digest
          fresh_client).wire
        ≡ Client.uni_stream bytes ∷ [])
      × (authed (Server.step env (uni_stream_opened bytes) fresh_server).conn
          ≡ contains t raw_server.token)
authed-send_authentication client raw_client client_config server raw_server server_config transport
      env t size given started serving alike fits safe o w f =
    let digest = build-token_digest client raw_client client_config t given started ∙ alike in
    let tokens = build-token server raw_server server_config serving in
    (
      write_command (authenticate (server.hash t)) [],
      rw digest (send_authentication-wire transport (server.hash t) _ _ size o w f),
      new_system-authed env _ server_config.token _
          ∙ (presents-authenticate (server.hash t) server_config.token fits
              ∙ (ap (contains (server.hash t)) tokens
                  ∙ contains-image server.hash t raw_server.token safe)),
    )
