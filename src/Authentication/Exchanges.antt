-- ===== src/Authentication/Exchanges.antt =====
-- src/authentication.rs: what the handshake sends, and what it does with errors.
use sysu_netauth.Common.{
  ℕ, ◌≡◌, refl, ◌⊎◌, inl, inr, Bool, true, false, Option, none, some, List, ◌++◌, arith, Result, ok,
  err, if◌then◌else◌, String,
}
use sysu_netauth.Common.Bytes.{bytes_eq_sound}
use sysu_netauth.Protocol.{Packet, IsMac, six, Md5, answer, pae, parse}
use sysu_netauth.Protocol.RoundTrip.{returned}
use sysu_netauth.Protocol.Answer.{Replies, answer-parse}
use sysu_netauth.Authentication.{
  response, addressed_to, receive, code_arm, request_arm, peer_changed,
}
use sysu_netauth.Authentication.Pinning.{receive-Passes}

-- Where an answer goes: to the group address once online, before to the sender of the request.
abbrev pub destination : Bool → Packet → List ℕ
destination online packet = if online then pae else packet.source

destination-IsMac :
    (online : Bool) (packet : Packet) → IsMac packet.source → IsMac (destination online packet)
destination-IsMac true packet m = six
destination-IsMac false packet m = m

code_arm-response :
    (peer : Option (List ℕ)) (packet : Packet) (c : Bool) (reply : Result (Option (List ℕ)))
    (bytes : List ℕ) (changed : Bool)
    → (code_arm peer packet c reply).1 ≡ ok (response bytes changed)
    → (reply ≡ ok (some bytes))
      × (changed ≡ c)
      × ((code_arm peer packet c reply).0 ≡ some packet.source)
unfolding code_arm request_arm
code_arm-response peer packet c (err e) bytes changed h = ground arith
code_arm-response peer packet c (ok none) bytes changed h = ground arith
code_arm-response peer packet c (ok (some b)) bytes changed h = ground arith

code_arm_error :
    (peer : Option (List ℕ)) (packet : Packet) (c : Bool) (reply : Result (Option (List ℕ)))
    (e : String)
    → (code_arm peer packet c reply).1 ≡ err e
    → (reply ≡ err e) × (c ≡ false) × ((code_arm peer packet c reply).0 ≡ peer)
unfolding code_arm request_arm
code_arm_error peer packet c (err x) e h = ground arith
code_arm_error peer packet c (ok none) e h = ground arith
code_arm_error peer packet c (ok (some b)) e h = ground arith

module _ (md5 : Md5) (peer : Option (List ℕ)) (local : List ℕ) (packet : Packet)
    (username password : List ℕ) (online : Bool) where
  abbrev reply : Result (Option (List ℕ))
  reply = answer md5 local (destination online packet) packet username password

  -- A frame is sent only to answer a request addressed to this station; its sender is pinned, and
  -- the frame parses back to a response from this station with the identifier of the request.
  pub receive-response :
      (padding bytes : List ℕ) (changed : Bool)
      → IsMac local
      → IsMac packet.source
      → (receive md5 peer local packet username password online).1 ≡ ok (response bytes changed)
      → (addressed_to packet local ≡ true)
        × ((receive md5 peer local packet username password online).0 ≡ some packet.source)
        × (packet.code ≡ 1)
        × (k : ℕ) × (body : List ℕ) × Replies md5 packet username password k body
        × (parse (bytes ++ padding)
            ≡ some (returned local (destination online packet) packet.id k body))
  receive-response padding bytes changed here there h =
      elim (receive-Passes md5 peer local packet username password online) [
        | inl e ↦ absurd (ground arith)
        | inr (e, addressed, _, _) ↦
            let (q, _, pinned) =
              code_arm-response peer packet (peer_changed peer packet) reply bytes changed
                (ground arith) in
            let (one, k, body, r, back) =
              answer-parse md5 local (destination online packet) packet username password padding
                {bytes = bytes} here (destination-IsMac online packet there) q in
            (addressed, ground arith, one, k, body, r, back)
      ]

  -- An error comes only from the pinned station, or before a station is pinned: another
  -- authenticator cannot make the handshake fail with a malformed challenge.
  pub receive_error :
      (e : String)
      → (receive md5 peer local packet username password online).1 ≡ err e
      → ((peer ≡ none) ⊎ (peer ≡ some packet.source))
        × ((receive md5 peer local packet username password online).0 ≡ peer)
  receive_error e h = elim (receive-Passes md5 peer local packet username password online) [
    | inl q ↦ absurd (ground arith)
    | inr (q, _, pinned, before) ↦
        let (_, same, kept) =
          code_arm_error peer packet (peer_changed peer packet) reply e (ground arith) in
        (unchanged peer same, ground arith)
  ]
    where
      unchanged :
          (p : Option (List ℕ))
          → peer_changed p packet ≡ false
          → (p ≡ none) ⊎ (p ≡ some packet.source)
      unchanged none h = inl refl
      unchanged (some p) h = inr (ground (arith, bytes_eq_sound p packet.source))
