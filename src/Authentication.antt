-- ===== src/Authentication.antt =====
-- src/authentication.rs: the handshake decisions that the service and the command line share.
pub mod Pinning
pub mod Exchanges
use sysu_netauth.Common.{
  ℕ, ◌%◌, Bool, true, false, not, ◌&&◌, ◌||◌, Option, none, some, List, ◌==◌, if◌then◌else◌, get_or,
  Result, ok, err, is_none, is_some_and,
}
use sysu_netauth.Common.Bytes.{bytes_eq}
use sysu_netauth.Protocol.{Packet, Md5, pae, zero_mac, answer}

pub data Exchange : Type 0 where
  ignore : Exchange
  response : List ℕ → Bool → Exchange
  success : Exchange
  failure : Exchange

unfoldable pub addressed_to : Packet → List ℕ → Bool
addressed_to packet local =
    not (bytes_eq packet.source local)
    && not (bytes_eq packet.source zero_mac)
    && (get_or packet.source 0 0 % 2 == 0)
    && (bytes_eq packet.destination local || bytes_eq packet.destination pae)

-- `peer.is_some_and(|peer| peer != packet.source)`
abbrev pub peer_changed : Option (List ℕ) → Packet → Bool
peer_changed peer packet = is_some_and (λ p. not (bytes_eq p packet.source)) peer

abbrev pub Received : Type 0
Received = Option (List ℕ) × Result Exchange

-- The arm of a request: an error is hidden if the sender is not the pinned one.
unfoldable pub request_arm : Option (List ℕ) → Packet → Bool → Result (Option (List ℕ)) → Received
request_arm peer packet changed (err e) = (peer, if changed then ok ignore else err e)
request_arm peer packet changed (ok none) = (peer, ok ignore)
request_arm peer packet changed (ok (some bytes)) =
    (some packet.source, ok (response bytes changed))

-- `match packet.code`
unfoldable pub code_arm : Option (List ℕ) → Packet → Bool → Result (Option (List ℕ)) → Received
code_arm peer packet changed reply =
    if packet.code == 1
    then request_arm peer packet changed reply
    else if packet.code == 3
    then (peer, ok success)
    else if packet.code == 4
    then (peer, ok failure)
    else (peer, ok ignore)

-- The peer is the state: it comes back with the exchange, also where an error is returned.
unfoldable pub receive : Md5 → Option (List ℕ) → List ℕ → Packet → List ℕ → List ℕ → Bool → Received
receive md5 peer local packet username password online =
    let changed = peer_changed peer packet in
    let destination = if online then pae else packet.source in
    let reply = answer md5 local destination packet username password in
    if not (addressed_to packet local)
    then (peer, ok ignore)
    else if (changed && not (online && packet.code == 1))
        || (is_none peer && not (packet.code == 1))
    then (peer, ok ignore)
    else code_arm peer packet changed reply
