-- ===== src/Update/Trust.antt =====
-- src/update.rs: which URLs a download asks for.
use sysu_netauth.Common.{
  ℕ, zero, suc, inl, inr, ◌≡◌, ◌+◌, true, ◌&&◌, List, [], ◌∷◌, Bool-cases, Result-cases, Result,
  ltb, leb,
}
use sysu_netauth.Update.Url.{
  safe_url, Download, body, redirect, byte_length, download_from, download, resolve,
}

-- Every URL of a list is trusted, and no more than `n` are in it.
pub data AllSafe (hosts : List (List ℕ)) : ℕ → List (List ℕ) → Type 0 where
  none_asked : (n : ℕ) → AllSafe hosts n []
  asked :
      (n : ℕ) (url : List ℕ) (rest : List (List ℕ))
      → safe_url url hosts ≡ true
      → AllSafe hosts n rest
      → AllSafe hosts (suc n) (url ∷ rest)

module _ (request : ℕ → List ℕ → Result Download) (hosts : List (List ℕ)) where
  download_from-AllSafe :
      (left hop : ℕ) (url : List ℕ)
      → AllSafe hosts left (download_from request hosts left hop url).requested
  unfolding download_from
  download_from-AllSafe zero hop url = none_asked 0
  download_from-AllSafe (suc left) hop url = elim (Bool-cases (safe_url url hosts)) [
    | inr p ↦ rw (p, download_from) (none_asked (suc left))
    | inl p ↦ elim (Result-cases (request hop url)) [
      | inr (e, q) ↦ rw (p, q, download_from) (asked left url [] p (none_asked left))
      | inl (body bytes, q) ↦ rw (p, q, download_from) (asked left url [] p (none_asked left))
      | inl (redirect location, q) ↦
          elim (Bool-cases (ltb hop 3 && leb (byte_length location) 8192)) [
            | inl r ↦
                rw (p, q, r, download_from)
                  (asked left url _ p (download_from-AllSafe left (hop + 1) (resolve url location)))
            | inr r ↦ rw (p, q, r, download_from) (asked left url [] p (none_asked left))
          ]
    ]
  ]

  -- Whatever the servers answer, a download asks at most four times, each time for a trusted URL.
  pub download-AllSafe : (url : List ℕ) → AllSafe hosts 4 (download request hosts url).requested
  unfolding download
  download-AllSafe url = download_from-AllSafe 4 0 url
