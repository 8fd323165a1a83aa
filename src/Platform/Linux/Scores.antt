-- ===== src/Platform/Linux/Scores.antt =====
-- src/platform/linux.rs: what the listed adapters have in common.
use text.Mathlib.Text.{◌==◌ as str_eq}
use text.Mathlib.TextEquality.{eq_iff}
use sysu_netauth.Common.{
  ℕ, ◌≡◌, Bool, true, false, ◌&&◌, Option, none, some, List, [], ◌∷◌, map, String, refl, arith,
  Bool-cases, inl, inr, take, ap,
}
use sysu_netauth.Common.Integers.{ltb_ℤ}
use sysu_netauth.Platform.{Adapter, virtual_name, virtual_mac}
use sysu_netauth.Platform.Linux.{
  Address, link, inet, other, Item, Route, score_of, has_mac, scored, with_address, updated,
  listed_as, put, put_item, collect_items, put_gateway, put_route, put_routes, join, with_id, rank,
  ranked, adapters,
}

-- The score is that of the link, and an Ethernet adapter is no virtual one.
pub record IsSound (lowercase : List ℕ → List ℕ) (a : Adapter) : Type 0 where
  pub scores : a.score ≡ score_of a.up a.ethernet (has_mac a.mac)
  pub real_name : a.ethernet ≡ true → virtual_name lowercase a.name ≡ false
  pub real_mac : a.ethernet ≡ true → virtual_mac a.mac ≡ false

abbrev pub AllSound : (List ℕ → List ℕ) → List Adapter → Type 0
AllSound lowercase [] = Unit
AllSound lowercase (a ∷ as') = IsSound lowercase a × AllSound lowercase as'

module _ (lowercase : List ℕ → List ℕ) (is_test : Bool) where
  -- Ethernet only under a real name and a real address.
  abbrev Real : Adapter → Type 0
  Real a =
      (a.ethernet ≡ true → virtual_name lowercase a.name ≡ false)
      × (a.ethernet ≡ true → virtual_mac a.mac ≡ false)

  scored-IsSound : (a : Adapter) → Real a → IsSound lowercase (scored a)
  scored-IsSound a r = record { scores = refl; real_name = r.0; real_mac = r.1 }

  with_address-Real :
      (i : Item) (d : Address) (a : Adapter)
      → a.name ≡ i.name
      → Real a
      → Real (with_address lowercase is_test i d a)
  with_address-Real i (link mac kind) a e r =
      let m = ap (virtual_name lowercase) e in (λ h. ground (arith, m), λ h. ground (arith))
  with_address-Real i (inet text) a e r = r
  with_address-Real i other a e r = r

  updated-IsSound :
      (i : Item) (d : Address) (a : Adapter)
      → a.name ≡ i.name
      → Real a
      → IsSound lowercase (updated lowercase is_test i d a)
  updated-IsSound i d a e r =
      let b : Adapter = record a { up = i.running && i.is_up } in
      scored-IsSound (with_address lowercase is_test i d b) (with_address-Real i d b e r)

  put-AllSound :
      (i : Item) (d : Address) (as' : List Adapter)
      → AllSound lowercase as'
      → AllSound lowercase (put lowercase is_test i d as')
  unfolding put
  put-AllSound i d [] h = (
    updated-IsSound i d (listed_as lowercase is_test i) refl
        ((λ e. absurd (cc)), (λ e. absurd (cc))),
    tt,
  )
  put-AllSound i d (a ∷ as') h = elim (Bool-cases (str_eq a.name i.name)) [
    | inl e ↦
        simp e
          (updated-IsSound i d a ((eq_iff a.name i.name).0 e) (h.0.real_name, h.0.real_mac), h.1)
    | inr e ↦ simp e (h.0, put-AllSound i d as' h.1)
  ]

  put_item-AllSound :
      (i : Item) (o : Option Address) (as' : List Adapter)
      → AllSound lowercase as'
      → AllSound lowercase (put_item lowercase is_test i o as')
  put_item-AllSound i none as' h = h
  put_item-AllSound i (some d) as' h = put-AllSound i d as' h

  collect_items-AllSound :
      (items : List Item) (as' : List Adapter)
      → AllSound lowercase as'
      → AllSound lowercase (collect_items lowercase is_test items as')
  unfolding collect_items
  collect_items-AllSound [] as' h = h
  collect_items-AllSound (i ∷ is) as' h =
      collect_items-AllSound is (put_item lowercase is_test i i.address as')
        (put_item-AllSound i i.address as' h)

module _ (lowercase : List ℕ → List ℕ) where
  put_gateway-AllSound :
      (n g : String) (as' : List Adapter)
      → AllSound lowercase as'
      → AllSound lowercase (put_gateway n g as')
  unfolding put_gateway
  put_gateway-AllSound n g [] h = tt
  put_gateway-AllSound n g (a ∷ as') h = elim (Bool-cases (str_eq a.name n)) [
    | inl e ↦
        simp e
          (record { scores = h.0.scores; real_name = h.0.real_name; real_mac = h.0.real_mac }, h.1)
    | inr e ↦ simp e (h.0, put_gateway-AllSound n g as' h.1)
  ]

  put_route-AllSound :
      (r : Route) (o : Option String) (as' : List Adapter)
      → AllSound lowercase as'
      → AllSound lowercase (put_route r o as')
  put_route-AllSound r none as' h = h
  put_route-AllSound r (some g) as' h = elim (Bool-cases (str_eq r.destination "00000000")) [
    | inl e ↦ simp e (put_gateway-AllSound r.interface g as' h)
    | inr e ↦ simp e h
  ]

  put_routes-AllSound :
      (rs : List Route) (as' : List Adapter)
      → AllSound lowercase as'
      → AllSound lowercase (put_routes rs as')
  unfolding put_routes
  put_routes-AllSound [] as' h = h
  put_routes-AllSound (r ∷ rs) as' h =
      put_routes-AllSound rs (put_route r r.gateway as') (put_route-AllSound r r.gateway as' h)

  with_id-AllSound :
      (mac_text : List ℕ → String) (dns : String) (as' : List Adapter)
      → AllSound lowercase as'
      → AllSound lowercase (map (with_id mac_text dns) as')
  with_id-AllSound t dns [] h = tt
  with_id-AllSound t dns (a ∷ as') h = (
    record { scores = h.0.scores; real_name = h.0.real_name; real_mac = h.0.real_mac },
    with_id-AllSound t dns as' h.1,
  )

  rank-AllSound :
      (a : Adapter) (as' : List Adapter)
      → IsSound lowercase a
      → AllSound lowercase as'
      → AllSound lowercase (rank a as')
  unfolding rank
  rank-AllSound a [] s h = (s, tt)
  rank-AllSound a (b ∷ bs) s h = elim (Bool-cases (ltb_ℤ a.score b.score)) [
    | inl e ↦ simp e (h.0, rank-AllSound a bs s h.1)
    | inr e ↦ simp e (s, h)
  ]

  ranked-AllSound : (as' : List Adapter) → AllSound lowercase as' → AllSound lowercase (ranked as')
  unfolding ranked
  ranked-AllSound [] h = tt
  ranked-AllSound (a ∷ as') h = rank-AllSound a (ranked as') h.0 (ranked-AllSound as' h.1)

-- Every listed adapter has the score of its link, and none that counts as Ethernet has a virtual
-- machine's name or address.
pub adapters-AllSound :
    (lowercase : List ℕ → List ℕ) (is_test : Bool) (mac_text : List ℕ → String) (items : List Item)
    (routes : List Route) (servers : List String)
    → AllSound lowercase (adapters lowercase is_test mac_text items routes servers)
unfolding adapters
adapters-AllSound lowercase is_test mac_text items routes servers =
    let dns = join (take 2 servers) in
    let found = collect_items lowercase is_test items [] in
    let a = collect_items-AllSound lowercase is_test items [] tt in
    let b = put_routes-AllSound lowercase routes found a in
    ranked-AllSound lowercase (map (with_id mac_text dns) (put_routes routes found))
      (with_id-AllSound lowercase mac_text dns (put_routes routes found) b)
