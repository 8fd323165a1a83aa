-- ===== src/Authentication/Pinning.antt =====
-- src/authentication.rs: which station the handshake listens to.
use sysu_netauth.Common.{
  ℕ, ◌≡◌, refl, ◌≢◌, ◌⊎◌, inl, inr, Bool, true, Option, none, some, List, arith, Result, ok, err,
  if◌then◌else◌, ◌==◌, Bool-cases,
}
use sysu_netauth.Common.Bytes.{bytes_eq_sound}
use sysu_netauth.Protocol.{Packet, Md5, answer, pae}
use sysu_netauth.Authentication.{
  ignore, response, success, failure, addressed_to, receive, code_arm, request_arm, peer_changed,
}

-- What the last match does with the reply.
code_arm_cases :
    (peer : Option (List ℕ)) (packet : Packet) (changed : Bool) (reply : Result (Option (List ℕ)))
    → let r = code_arm peer packet changed reply in
      (r.0 ≡ peer)
      ⊎ ((bytes : List ℕ) × (reply ≡ ok (some bytes))
          × (packet.code ≡ 1)
          × (r ≡ (some packet.source, ok (response bytes changed))))
unfolding code_arm request_arm
code_arm_cases peer packet changed (err e) = inl (ground arith)
code_arm_cases peer packet changed (ok none) = inl (ground arith)
code_arm_cases peer packet changed (ok (some bytes)) = elim (Bool-cases (packet.code == 1)) [
  | inl one ↦ inr (bytes, refl, ground arith, ground arith)
  | inr other ↦ inl (ground arith)
]

-- The ways through `receive`: a frame is ignored, or it reaches `match packet.code`.
abbrev Passes : Md5 → Option (List ℕ) → List ℕ → Packet → List ℕ → List ℕ → Bool → Type 0
Passes md5 peer local packet username password online =
    let r = receive md5 peer local packet username password online in
    let reply = answer md5 local (if online then pae else packet.source) packet username password in
    (r ≡ (peer, ok ignore))
    ⊎ ((r ≡ code_arm peer packet (peer_changed peer packet) reply)
        × (addressed_to packet local ≡ true)
        × ((peer ≡ some packet.source) ⊎ (packet.code ≡ 1))
        × ((online ≡ true) ⊎ (peer ≡ none) ⊎ (peer ≡ some packet.source)))

pub receive-Passes :
    (md5 : Md5) (peer : Option (List ℕ)) (local : List ℕ) (packet : Packet)
    (username password : List ℕ) (online : Bool)
    → Passes md5 peer local packet username password online
unfolding receive
receive-Passes md5 none local packet username password online = ground arith
receive-Passes md5 (some p) local packet username password online =
    ground (arith, bytes_eq_sound p packet.source)

code_arm_verdict :
    (peer : Option (List ℕ)) (packet : Packet) (changed : Bool) (reply : Result (Option (List ℕ)))
    → let r = code_arm peer packet changed reply in
      (r.1 ≡ ok success) ⊎ (r.1 ≡ ok failure) → (packet.code ≢ 1) × (r.0 ≡ peer)
unfolding code_arm request_arm
code_arm_verdict peer packet changed (err e) h = ground arith
code_arm_verdict peer packet changed (ok none) h = ground arith
code_arm_verdict peer packet changed (ok (some bytes)) h = ground arith

module _ (md5 : Md5) (peer : Option (List ℕ)) (local : List ℕ) (packet : Packet)
    (username password : List ℕ) (online : Bool) where
  abbrev reply : Result (Option (List ℕ))
  reply = answer md5 local (if online then pae else packet.source) packet username password

  abbrev passes : Passes md5 peer local packet username password online
  passes = receive-Passes md5 peer local packet username password online

  -- The pinned station stays, or becomes the sender of a request; another one than before it
  -- becomes only while the connection is up or when none was pinned.
  pub receive-repins :
      let r = receive md5 peer local packet username password online in
      (r.0 ≡ peer)
      ⊎ ((r.0 ≡ some packet.source)
          × (packet.code ≡ 1)
          × ((online ≡ true) ⊎ (peer ≡ none) ⊎ (peer ≡ some packet.source)))
  receive-repins =
      ground (arith, passes, code_arm_cases peer packet (peer_changed peer packet) reply)

  -- Success and failure count only from the pinned station, addressed to this one, and leave it
  -- pinned.
  pub receive_verdict :
      let r = receive md5 peer local packet username password online in
      (r.1 ≡ ok success) ⊎ (r.1 ≡ ok failure)
      → (peer ≡ some packet.source) × (addressed_to packet local ≡ true) × (r.0 ≡ peer)
  receive_verdict h =
      ground (arith, passes, code_arm_verdict peer packet (peer_changed peer packet) reply)
