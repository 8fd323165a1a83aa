-- ===== src/Platform/Linux.antt =====
-- src/platform/linux.rs: the adapters that the system lists. What it answers is a list of items; the
-- texts of addresses are arguments.
pub mod Scores
use text.Mathlib.Text.{◌==◌ as str_eq}
use Prim.Native.String.{◌++◌ as append}
use sysu_netauth.Common.{
  ℕ, ◌+◌, ◌≡◌, Bool, true, false, not, ◌&&◌, ◌||◌, Option, none, some, List, [], ◌∷◌, map, any,
  if◌then◌else◌, ◌==◌, String, refl, arith, Bool-cases, inl, inr, take, is_some,
}
use sysu_netauth.Common.Bytes.{bytes_eq}
use sysu_netauth.Common.Integers.{ℤ, pos, negsuc, ltb_ℤ}
use sysu_netauth.Protocol.{zero_mac}
use sysu_netauth.Platform.{Adapter, virtual_name, virtual_mac}

-- What an item's address is: of the link, with its hardware type, or an IPv4 address.
pub data Address : Type 0 where
  link : Option (List ℕ) → ℕ → Address
  inet : String → Address
  other : Address

-- `address` is missing where the system gives none; `wireless`, `device` and `driver` are read from
-- the directory of the interface.
pub record Item : Type 0 where
  pub name : String
  pub index : ℕ
  pub running : Bool
  pub is_up : Bool
  pub address : Option Address
  pub wireless : Bool
  pub device : Bool
  pub driver : Option String

pub record Route : Type 0 where
  pub interface : String
  pub destination : String
  pub gateway : Option String

abbrev pub points : Bool → ℕ → ℕ
points true n = n
points false n = 0

-- 30 for a link that is up, 20 for Ethernet or -100, and 10 for an address.
unfoldable pub score_of : Bool → Bool → Bool → ℤ
score_of up true has_mac = pos (points up 30 + 20 + points has_mac 10)
score_of true false true = negsuc 59
score_of true false false = negsuc 69
score_of false false true = negsuc 89
score_of false false false = negsuc 99

abbrev pub has_mac : List ℕ → Bool
has_mac mac = not (bytes_eq mac zero_mac)

abbrev pub scored : Adapter → Adapter
scored a = record a { score = score_of a.up a.ethernet (has_mac a.mac) }

abbrev pub mac_or : Option (List ℕ) → List ℕ → List ℕ
mac_or none old = old
mac_or (some mac) old = mac

abbrev pub text_or_empty : Option String → String
text_or_empty none = ""
text_or_empty (some text) = text

module _ (lowercase : List ℕ → List ℕ) (is_test : Bool) where
  abbrev pub with_address : Item → Address → Adapter → Adapter
  with_address i (link mac kind) a =
      let m = mac_or mac a.mac in
      record a {
        mac = m;
        ethernet =
            (kind == 1)
            && not i.wireless
            && (i.device || is_test)
            && not (virtual_name lowercase i.name)
            && not (virtual_mac m);
        driver = text_or_empty i.driver;
      }
  with_address i (inet text) a = record a { ipv4 = text }
  with_address i other a = a

  abbrev pub updated : Item → Address → Adapter → Adapter
  updated i address a = scored (with_address i address (record a { up = i.running && i.is_up }))

  abbrev pub listed_as : Item → Adapter
  listed_as i = record {
    name = i.name;
    id = i.name;
    index = i.index;
    mac = zero_mac;
    up = false;
    ethernet = false;
    score = pos 0;
    ipv4 = "";
    gateway = "";
    dns = "";
    driver = "";
  }

  -- The first adapter of that name, or a new one at the end.
  unfoldable pub put : Item → Address → List Adapter → List Adapter
  put i address [] = updated i address (listed_as i) ∷ []
  put i address (a ∷ as') =
      let rest = put i address as' in
      if str_eq a.name i.name then updated i address a ∷ as' else a ∷ rest

  abbrev pub put_item : Item → Option Address → List Adapter → List Adapter
  put_item i none as' = as'
  put_item i (some address) as' = put i address as'

  unfoldable pub collect_items : List Item → List Adapter → List Adapter
  collect_items [] as' = as'
  collect_items (i ∷ is) as' = collect_items is (put_item i i.address as')

-- The first adapter of a default route's interface is given its gateway.
unfoldable pub put_gateway : String → String → List Adapter → List Adapter
put_gateway interface gateway [] = []
put_gateway interface gateway (a ∷ as') =
    let rest = put_gateway interface gateway as' in
    if str_eq a.name interface then record a { gateway = gateway } ∷ as' else a ∷ rest

abbrev pub put_route : Route → Option String → List Adapter → List Adapter
put_route r none as' = as'
put_route r (some gateway) as' =
    if str_eq r.destination "00000000" then put_gateway r.interface gateway as' else as'

unfoldable pub put_routes : List Route → List Adapter → List Adapter
put_routes [] as' = as'
put_routes (r ∷ rs) as' = put_routes rs (put_route r r.gateway as')

-- The first two name servers.
abbrev pub join : List String → String
join [] = ""
join (s ∷ []) = s
join (s ∷ (t ∷ ts)) = append s (append ", " (join (t ∷ ts)))

abbrev pub with_id : (List ℕ → String) → String → Adapter → Adapter
with_id mac_text dns a = record a { dns = dns; id = if has_mac a.mac then mac_text a.mac else a.id }

-- The best score first; the sort is stable.
unfoldable pub rank : Adapter → List Adapter → List Adapter
rank a [] = a ∷ []
rank a (b ∷ bs) = if ltb_ℤ a.score b.score then b ∷ rank a bs else a ∷ b ∷ bs

unfoldable pub ranked : List Adapter → List Adapter
ranked [] = []
ranked (a ∷ as') = rank a (ranked as')

unfoldable pub adapters :
    (List ℕ → List ℕ)
    → Bool
    → (List ℕ → String)
    → List Item
    → List Route
    → List String
    → List Adapter
adapters lowercase is_test mac_text items routes servers = ranked (
    map (with_id mac_text (join (take 2 servers)))
      (put_routes routes (collect_items lowercase is_test items [])))
