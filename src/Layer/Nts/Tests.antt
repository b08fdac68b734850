-- ===== src/Layer/Nts/Tests.antt =====
-- Instances for src/layer/LayerNTS.cpp.
use gc.Common.{false, []}
use gc.Module.BootTimer.{clear}
use gc.Layer.Nts.{on_line, Nts, UserCfg}

abbrev pub cfg : UserCfg
cfg = record {
  device_id = 1;
  broadcast_id = 0;
  session_timeout_sec = 180;
  seed_offset = 0x22;
  password_offset = 0x5a5a;
}

-- On line, with the last numbers before the wrap.
abbrev pub link : Nts
link = record {
  session = on_line;
  seed = 0;
  timeout = clear;
  addr = 1;
  nr = 255;
  ns = 7;
  led = false;
  others_online = false;
  events = [];
}
