-- ===== src/Config/Validation.antt =====
-- src/config.rs: what the checks of the settings guarantee.
use Prim.Native.String.{len}
use text.Mathlib.Text.{◌==◌ as str_eq}
use sysu_netauth.Common.{
  ℕ, inl, inr, ◌≡◌, ◌⊎◌, ◌≤◌, ◌↔◌, Bool, true, false, ◌&&◌, ◌||◌, arith, refl, sym, ap, subst, ◌∙◌,
  Result-cases, Result, ok, err, leb, ◌>>=◌, ◌>>◌, ensure, is_ok, List,
}
use sysu_netauth.Protocol.{Encoder, gbk}
use sysu_netauth.Config.{
  Config, default, validate, PreferencesPatch, apply, FileRead, missing, unreadable, found, load,
}

-- Settings that pass.
pub record Valid (encode : Encoder) (c : Config) : Type 0 where
  pub mode : str_eq c.iface_mode "auto" || str_eq c.iface_mode "manual" ≡ true
  pub interval : (15 ≤ c.retry_interval) × (c.retry_interval ≤ 3600)
  pub short : (len c.username ≤ 512) × (len c.password ≤ 1024) × (len c.iface ≤ 512)
  pub encodable : (is_ok (gbk encode c.username) ≡ true) × (is_ok (gbk encode c.password) ≡ true)

-- The checks one after the other, over what each of them tests.
abbrev chain : Bool → Bool → Bool → Result (List ℕ) → Result (List ℕ) → Result (Unit {0})
chain mode interval short username password =
    ensure mode "iface_mode must be auto or manual"
    >> (ensure interval "retry_interval must be 15–3600 seconds"
        >> (ensure short "configuration value too long"
            >> (username >>= λ _. password >>= λ _. ok tt)))

chain-ok :
    (mode interval short : Bool) (u p : Result (List ℕ))
    → (is_ok (chain mode interval short u p) ≡ true)
      ↔ ((mode ≡ true) × (interval ≡ true) × (short ≡ true) × (is_ok u ≡ true) × (is_ok p ≡ true))
chain-ok true true true (ok u) (ok p) = ground arith
chain-ok true true true (ok u) (err e) = ground arith
chain-ok true true true (err e) p = ground arith
chain-ok true true false u p = ground arith
chain-ok true false s u p = ground arith
chain-ok false i s u p = ground arith

module _ (encode : Encoder) (c : Config) where
  abbrev mode_ok : Bool
  mode_ok = str_eq c.iface_mode "auto" || str_eq c.iface_mode "manual"

  abbrev interval_ok : Bool
  interval_ok = leb 15 c.retry_interval && leb c.retry_interval 3600

  abbrev short_ok : Bool
  short_ok = leb (len c.username) 512 && leb (len c.password) 1024 && leb (len c.iface) 512

  validate-chain :
      validate encode c
      ≡ chain mode_ok interval_ok short_ok (gbk encode c.username) (gbk encode c.password)
  unfolding validate
  validate-chain = refl

  -- The checks pass exactly the settings that are valid.
  pub validate_iff : (is_ok (validate encode c) ≡ true) ↔ Valid encode c
  validate_iff =
      let (there, back) =
        chain-ok mode_ok interval_ok short_ok (gbk encode c.username) (gbk encode c.password) in
      (
        λ h.
            let (mode, interval, short, username, password) =
              there (ap is_ok (sym validate-chain) ∙ h) in
            record {
              mode = mode;
              interval = ground arith;
              short = ground arith;
              encodable = (username, password);
            },
        λ v.
            ap is_ok validate-chain
            ∙ back (v.mode, in_range v, in_size v, v.encodable.0, v.encodable.1),
      )
    where
      in_range : Valid encode c → interval_ok ≡ true
      in_range v = let i = v.interval in ground arith

      in_size : Valid encode c → short_ok ≡ true
      in_size v = let s = v.short in ground arith

-- What is loaded was found in the file and is valid, or there was no file and it is the default.
pub load-Valid :
    (encode : Encoder) (file : FileRead) (c : Config)
    → load encode file ≡ ok c
    → ((file ≡ missing) × (c ≡ default)) ⊎ ((file ≡ found c) × Valid encode c)
unfolding load
load-Valid encode missing c h = inl (refl, ground arith)
load-Valid encode (unreadable e) c h = ground arith
load-Valid encode (found d) c h = elim (Result-cases (validate encode d)) [
  | inr (e, p) ↦ ground arith
  | inl (tt, p) ↦
      let same : d ≡ c = ground arith in
      inr (ap found same, subst (λ x. Valid encode x) same ((validate_iff encode d).0 (ap is_ok p)))
]

-- A preferences patch keeps the account, settings are as valid with it as without, and to apply it
-- twice is to apply it once.
pub validate-apply :
    (encode : Encoder) (p : PreferencesPatch) (c : Config)
    → (validate encode (apply p c) ≡ validate encode c)
      × ((apply p c).username ≡ c.username)
      × ((apply p c).password ≡ c.password)
      × (apply p (apply p c) ≡ apply p c)
unfolding validate apply
validate-apply encode p c = (refl, refl, refl, ground arith)
