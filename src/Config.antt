-- ===== src/Config.antt =====
-- src/config.rs: settings, their validation, the preferences patch, loading and saving. The file
-- system and the JSON reader stand behind `FileRead`, what reading a file came to.
use Prim.Native.String.{len}
use text.Mathlib.Text.{◌==◌ as str_eq}
pub mod Storage
pub mod Validation
use sysu_netauth.Common.{
  ℕ, Bool, true, false, not, ◌&&◌, ◌||◌, Option, none, some, leb, Result, ok, err, ◌>>=◌, ◌>>◌,
  ensure, String,
}
use sysu_netauth.Protocol.{Encoder, gbk}

pub record Config : Type 0 where
  pub username : String
  pub password : String
  pub iface : String
  pub iface_mode : String
  pub auto_auth : Bool
  pub retry_interval : ℕ
  pub service_mode : Bool
  pub launch_gui_on_login : Bool
  pub hide_window_on_login : Bool
  pub desktop_notify : Bool
  pub auto_update_check : Bool
  pub update_notify : Bool

abbrev pub default : Config
default = record {
  username = "";
  password = "";
  iface = "";
  iface_mode = "auto";
  auto_auth = true;
  retry_interval = 60;
  service_mode = true;
  launch_gui_on_login = false;
  hide_window_on_login = true;
  desktop_notify = false;
  auto_update_check = true;
  update_notify = true;
}

unfoldable pub validate : Encoder → Config → Result (Unit {0})
validate encode c = do
  ensure (str_eq c.iface_mode "auto" || str_eq c.iface_mode "manual")
      "iface_mode must be auto or manual"
  ensure (leb 15 c.retry_interval && leb c.retry_interval 3600)
      "retry_interval must be 15–3600 seconds"
  ensure (leb (len c.username) 512 && leb (len c.password) 1024 && leb (len c.iface) 512)
      "configuration value too long"
  gbk encode c.username >>= λ _. gbk encode c.password >>= λ _. ok tt

unfoldable pub validate_auth : Encoder → Config → Result (Unit {0})
validate_auth encode c = do
  validate encode c
  ensure (not (str_eq c.username "") && not (str_eq c.password "")) "需要配置 NetID 和密码"
  ensure (not (str_eq c.iface_mode "manual") || not (str_eq c.iface "")) "请选择网卡"

pub record PreferencesPatch : Type 0 where
  pub auto_auth : Option Bool
  pub launch_gui_on_login : Option Bool
  pub hide_window_on_login : Option Bool
  pub desktop_notify : Option Bool
  pub auto_update_check : Option Bool
  pub update_notify : Option Bool

abbrev patched : Option Bool → Bool → Bool
patched none old = old
patched (some v) old = v

unfoldable pub apply : PreferencesPatch → Config → Config
apply p c = record c {
  auto_auth = patched p.auto_auth c.auto_auth;
  launch_gui_on_login = patched p.launch_gui_on_login c.launch_gui_on_login;
  hide_window_on_login = patched p.hide_window_on_login c.hide_window_on_login;
  desktop_notify = patched p.desktop_notify c.desktop_notify;
  auto_update_check = patched p.auto_update_check c.auto_update_check;
  update_notify = patched p.update_notify c.update_notify;
}

-- `Cache`: the adapter that authenticated last.
pub record Cache : Type 0 where
  pub last_success_id : String

-- The configuration file: absent, not readable as a `Config`, or read.
pub data FileRead : Type 0 where
  missing : FileRead
  unreadable : String → FileRead
  found : Config → FileRead

unfoldable pub load : Encoder → FileRead → Result Config
load encode missing = ok default
load encode (unreadable e) = err e
load encode (found c) = do validate encode c; ok c

-- `write` is what `atomic_write` comes to; nothing is written unless the settings are valid.
unfoldable pub save : Encoder → Config → Result (Unit {0}) → Result (Unit {0})
save encode c write = do validate encode c; write
