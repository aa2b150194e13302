-- ===== src/Proto.antt =====
-- src/usbmuxd-proto.h: the messages between the daemon and its clients.
use usbmuxd.Prelude.{List, le32, ℕ, ◌++◌}

-- `enum usbmuxd_result`
pub data Result : Type 0 where
  ok bad_command bad_dev conn_refused bad_version : Result

unfoldable pub result_code : Result → ℕ
result_code ok = 0
result_code bad_command = 1
result_code bad_dev = 2
result_code conn_refused = 3
result_code bad_version = 6

-- `enum usbmuxd_msgtype`
abbrev pub message_result : ℕ
message_result = 1

abbrev pub message_connect : ℕ
message_connect = 2

abbrev pub message_listen : ℕ
message_listen = 3

abbrev pub message_device_add : ℕ
message_device_add = 4

abbrev pub message_device_remove : ℕ
message_device_remove = 5

abbrev pub message_device_paired : ℕ
message_device_paired = 6

abbrev pub message_plist : ℕ
message_plist = 8

-- `struct usbmuxd_header`, packed, in the order of a little-endian host.
pub record Header : Type 0 where
  pub length : ℕ
  pub version : ℕ
  pub message : ℕ
  pub tag : ℕ

abbrev pub header_len : ℕ
header_len = 16

unfoldable pub header_bytes : Header → List ℕ
header_bytes h = le32 h.length ++ (le32 h.version ++ (le32 h.message ++ le32 h.tag))
