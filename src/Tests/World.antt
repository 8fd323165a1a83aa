-- ===== src/Tests/World.antt =====
-- A machine with one wired adapter, an authenticator, and an environment in which all goes well.
use sysu_netauth.Common.{ℕ, ◌+◌, ◌*◌, true, false, none, some, List, [], ◌∷◌, ok, replicate}
use sysu_netauth.Common.Integers.{pos}
use sysu_netauth.Config.{Config, default, found}
use sysu_netauth.Platform.{Adapter}
use sysu_netauth.Protocol.{Packet}
use sysu_netauth.Update.Text.{codes}
use sysu_netauth.Engine.Types.{Engine, Env}
use sysu_netauth.Engine.Run.{new}

abbrev pub station : List ℕ
station = 2 ∷ 0 ∷ 0 ∷ 0 ∷ 0 ∷ 1 ∷ []

abbrev pub server : List ℕ
server = 2 ∷ 0 ∷ 0 ∷ 0 ∷ 0 ∷ 9 ∷ []

abbrev pub lan : Adapter
lan = record {
  name = "eth0";
  id = "pci-1";
  index = 2;
  mac = station;
  up = true;
  ethernet = true;
  score = pos 10;
  ipv4 = "";
  gateway = "";
  dns = "";
  driver = "e1000";
}

abbrev pub slow : Adapter
slow = record lan { id = "usb-1"; score = pos 1 }

abbrev pub account : Config
account = record default { username = "student"; password = "secret" }

abbrev pub world : Env
world = record {
  instant = λ n. n * 1_000_000_000;
  clock = λ n. 1_700_000_000 + n;
  list_adapters = λ n. ok (lan ∷ []);
  open_session = λ n a g. ok tt;
  send_frame = λ n bytes. ok tt;
  start_probe = λ n. ok tt;
  spawn = λ n. ok tt;
  file_version = λ n. some (1, 2);
  read_config = λ n. found account;
  write_file = λ n. ok tt;
  read_log = λ n. ok "";
  configure_service = λ n. ok tt;
  is_windows = false;
  process_id = 4711;
  version = "1.2.0";
  encode = λ text. some (codes text);
  md5 = λ bytes. replicate 16 7;
}

abbrev pub fresh : Engine
fresh = new world none none

abbrev pub request : Packet
request = record {
  source = server;
  destination = station;
  code = 1;
  id = 5;
  kind = some 1;
  payload = [];
}
