-- ===== src/Invocation/Endpoints.antt =====
-- The endpoint that a client connects to, `ConnectEndpoint` of manager/src/CommandLine.cpp.
use improved_process_manager.Base.{
  ◌-◌, true, false, ◌||◌, [], ◌∷◌, ◌++◌, none, some, ltb, ◌≡◌, refl, ap, arith, inl, inr,
  if◌then◌else◌, take, length, take-length, drop-length, Text, text, same_text, same_text_self,
  Bool-cases,
}
use improved_process_manager.Invocation.{last_colon, connect_host, connect_at, connect_endpoint}

-- A host of TCP and its port.
unfoldable pub tcp_endpoint : Text → Text → Text
tcp_endpoint host port = text "tcp://" ++ (host ++ b':' ∷ port)

-- Where a client on the same host reaches what was bound.
unfoldable pub reached : Text → Text
reached host =
    if same_text host (text "*") || same_text host (text "0.0.0.0")
    then text "127.0.0.1"
    else if same_text host (text "[::]") || same_text host (text "::")
    then text "[::1]"
    else host

last_colon-append :
    (host port : Text)
    → last_colon port ≡ none
    → last_colon (host ++ b':' ∷ port) ≡ some (length host)
unfolding last_colon
last_colon-append [] port e = rw e refl
last_colon-append (c ∷ cs) port e = rw (last_colon-append cs port e) (ap some (omega arith))

connect_host-reached :
    (host port : Text)
    → connect_host (tcp_endpoint host port) host (b':' ∷ port) ≡ tcp_endpoint (reached host) port
unfolding connect_host tcp_endpoint reached
connect_host-reached host port =
    elim (Bool-cases (same_text host (text "*") || same_text host (text "0.0.0.0"))) [
      | inl any ↦ rw any refl
      | inr other ↦ elim (Bool-cases (same_text host (text "[::]") || same_text host (text "::"))) [
        | inl any ↦ rw (other, any) refl
        | inr same ↦ rw (other, same) refl
      ]
    ]

connect_at-tcp_endpoint :
    (host port : Text)
    → connect_at (tcp_endpoint host port) (some (length (text "tcp://" ++ host)))
      ≡ tcp_endpoint (reached host) port
unfolding connect_at tcp_endpoint
connect_at-tcp_endpoint host port =
    let late : ltb (length (text "tcp://" ++ host)) 6 ≡ false = ground arith in
    let size : length (text "tcp://" ++ host) - 6 ≡ length host = omega arith in
    rw (late, size, take-length host (b':' ∷ port), drop-length host (b':' ∷ port))
      (connect_host-reached host port)

-- A client reaches a host that stands for every address of its kind at the loopback address of that kind,
-- and any other host, also one with colons, as it is bound; the port is kept.
pub connect_endpoint-tcp_endpoint :
    (host port : Text)
    → last_colon port ≡ none
    → connect_endpoint (tcp_endpoint host port) ≡ tcp_endpoint (reached host) port
unfolding connect_endpoint tcp_endpoint
connect_endpoint-tcp_endpoint host port e =
    let scheme : same_text (take 6 (tcp_endpoint host port)) (text "tcp://") ≡ true =
      same_text_self (text "tcp://") in
    let colon : last_colon (tcp_endpoint host port) ≡ some (length (text "tcp://" ++ host)) =
      last_colon-append (text "tcp://" ++ host) port e in
    rw (scheme, colon) (connect_at-tcp_endpoint host port)
