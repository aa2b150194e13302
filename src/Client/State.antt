-- ===== src/Client/State.antt =====
-- The state of src/client.c: `struct mux_client`. `ob_buf` and `ib_buf` hold their valid bytes, so
-- `ob_size` and `ib_size` are lengths; a buffer that was freed and set to NULL is `none`.
use usbmuxd.Prelude.{List, Option, ℕ}
use usbmuxd.Plist.{Plist}

-- `CMD_BUF_SIZE` and `REPLY_BUF_SIZE`
abbrev pub cmd_buf_size : ℕ
cmd_buf_size = 65536

abbrev pub reply_buf_size : ℕ
reply_buf_size = 65536

-- `enum client_state`
pub data ClientState : Type 0 where
  command listen connecting1 connecting2 connected dead : ClientState

pub record MuxClient : Type 0 where
  pub fd : ℕ
  pub ob_buf : Option (List ℕ)
  pub ob_capacity : ℕ
  pub ib_buf : Option (List ℕ)
  pub ib_capacity : ℕ
  pub events : ℕ
  pub devents : ℕ
  pub connect_tag : ℕ
  pub connect_device : ℕ
  pub state : ClientState
  pub proto_version : ℕ
  pub number : ℕ
  pub info : Option Plist
