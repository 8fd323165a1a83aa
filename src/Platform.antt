-- ===== src/Platform.antt =====
-- src/platform/mod.rs: the network adapters that the platform layers report.
pub mod Bpf
pub mod Capture
pub mod Linux
pub mod Ping
pub mod Session
use text.Mathlib.Text.{◌==◌ as str_eq}
use sysu_netauth.Common.{
  ℕ, Bool, true, false, not, ◌&&◌, ◌||◌, any, take, List, [], ◌∷◌, ◌==◌, String,
}
use sysu_netauth.Common.Bytes.{bytes_eq}
use sysu_netauth.Common.Integers.{ℤ, eq_ℤ}
use sysu_netauth.Protocol.{zero_mac}
use sysu_netauth.Update.Text.{codes}

pub record Adapter : Type 0 where
  pub name : String
  pub id : String
  pub index : ℕ
  pub mac : List ℕ
  pub up : Bool
  pub ethernet : Bool
  pub score : ℤ
  pub ipv4 : String
  pub gateway : String
  pub dns : String
  pub driver : String

unfoldable pub candidate : Adapter → Bool
candidate a = a.ethernet && a.up && not (bytes_eq a.mac zero_mac)

abbrev bool_eq : Bool → Bool → Bool
bool_eq true b = b
bool_eq false b = not b

-- The derived `PartialEq`.
unfoldable pub adapter_eq : Adapter → Adapter → Bool
adapter_eq a b =
    str_eq a.name b.name
    && str_eq a.id b.id
    && (a.index == b.index)
    && bytes_eq a.mac b.mac
    && bool_eq a.up b.up
    && bool_eq a.ethernet b.ethernet
    && eq_ℤ a.score b.score
    && str_eq a.ipv4 b.ipv4
    && str_eq a.gateway b.gateway
    && str_eq a.dns b.dns
    && str_eq a.driver b.driver

unfoldable pub adapters_eq : List Adapter → List Adapter → Bool
adapters_eq [] [] = true
adapters_eq [] (b ∷ bs) = false
adapters_eq (a ∷ as') [] = false
adapters_eq (a ∷ as') (b ∷ bs) = adapter_eq a b && adapters_eq as' bs

-- `str::contains`
abbrev pub starts_with : List ℕ → List ℕ → Bool
starts_with [] text = true
starts_with (p ∷ ps) [] = false
starts_with (p ∷ ps) (c ∷ cs) = (p == c) && starts_with ps cs

abbrev pub contains : List ℕ → List ℕ → Bool
contains [] part = starts_with part []
contains (c ∷ cs) part = starts_with part (c ∷ cs) || contains cs part

abbrev pub virtual_words : List String
virtual_words =
    "loopback" ∷ "virtual" ∷ "vmware" ∷ "virtualbox" ∷ "hyper-v" ∷ "vethernet" ∷ "docker" ∷ "veth"
    ∷ "bridge" ∷ "tap" ∷ "tun" ∷ "tailscale" ∷ "wireguard" ∷ "vpn" ∷ []

-- `lowercase` is the Unicode mapping of the standard library.
unfoldable pub virtual_name : (List ℕ → List ℕ) → String → Bool
virtual_name lowercase name =
    let n = lowercase (codes name) in any (λ s. contains n (codes s)) virtual_words

-- The prefixes of the hypervisors' addresses.
abbrev pub virtual_prefixes : List (List ℕ)
virtual_prefixes =
    (0 ∷ 5 ∷ 0x69 ∷ [])
    ∷ (0 ∷ 0x0c ∷ 0x29 ∷ [])
    ∷ (0 ∷ 0x50 ∷ 0x56 ∷ [])
    ∷ (0 ∷ 0x15 ∷ 0x5d ∷ [])
    ∷ (8 ∷ 0 ∷ 0x27 ∷ [])
    ∷ (0x52 ∷ 0x54 ∷ 0 ∷ [])
    ∷ []

unfoldable pub virtual_mac : List ℕ → Bool
virtual_mac mac = any (λ prefix. bytes_eq prefix (take 3 mac)) virtual_prefixes
