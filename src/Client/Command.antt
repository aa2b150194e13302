-- ===== src/Client/Command.antt =====
-- `handle_command` of src/client.c: what a message from a client asks for.
use usbmuxd.Prelude.{
  Bool, List, [], eq_bytes, false, get_or, if◌then◌else◌, is_neg, ltb, m16, m32, negsuc, none,
  of_le32, pos, some, sub32, suc, true, ℕ, ℤ, ◌%◌, ◌*◌, ◌+◌, ◌/◌, ◌==◌, ◌∷◌,
}
use usbmuxd.World.{M, Sys, deref, load_client, pure, store_client, ◌>>=◌, ◌>>◌}
use usbmuxd.Plist.{
  Plist, codes, copy_item, data_of, dict, get_item, stop, string_of, uint_of, uint_val,
}
use usbmuxd.Proto.{
  Header, bad_command, bad_dev, bad_version, header_len, message_connect, message_listen,
  message_plist, result_code,
}
use usbmuxd.Client.State.{command, connecting1}
use usbmuxd.Client.Output.{send_result}
use usbmuxd.Client.Notices.{client_device_paired, start_listen}
use usbmuxd.Client.Replies.{
  Conf, einval, send_device_list, send_listener_list, send_pair_record, send_system_buid,
}
use usbmuxd.Client.Close.{client_close}
use usbmuxd.Device.State.{DeviceInfo}
use usbmuxd.Device.Listing.{device_get_list}
use usbmuxd.Device.Connection.{device_start_connect}

-- The messages that a property list may ask for.
pub data Request : Type 0 where
  listen_request connect list_devices list_listeners : Request
  read_buid read_pair_record save_pair_record delete_pair_record unknown : Request

-- The chain of `strcmp`.
unfoldable pub request_of : List ℕ → Request
unfolding eq_bytes
request_of m =
    if eq_bytes m (codes "Listen")
    then listen_request
    else if eq_bytes m (codes "Connect")
    then connect
    else if eq_bytes m (codes "ListDevices")
    then list_devices
    else if eq_bytes m (codes "ListListeners")
    then list_listeners
    else if eq_bytes m (codes "ReadBUID")
    then read_buid
    else if eq_bytes m (codes "ReadPairRecord")
    then read_pair_record
    else if eq_bytes m (codes "SavePairRecord")
    then save_pair_record
    else if eq_bytes m (codes "DeletePairRecord")
    then delete_pair_record
    else unknown

-- `update_client_info`: the four entries that are remembered, in the order of the calls.
unfoldable pub client_info : Plist → Plist
client_info d = dict (
    copy_item d (codes "kLibUSBMuxVersion") (
      copy_item d (codes "ProgName")
        (copy_item d (codes "ClientVersionString") (copy_item d (codes "BundleID") stop))))

-- `-res` as a `uint32_t`, for a negative `int`.
abbrev pub negate : ℤ → ℕ
negate (pos n) = sub32 0 n
negate (negsuc n) = suc n

-- `ntohs` of a `uint16_t` read on a little-endian host.
abbrev pub ntohs : ℕ → ℕ
ntohs x = x % 256 * 256 + x / 256 % 256

-- `if(send_... < 0) return -1; return 0;`
abbrev pub to_status : M ℤ → M ℤ
to_status m = do r ← m; pure (if is_neg r then negsuc 0 else pos 0)

-- The device that a saved record is for: the first with the id, if its serial is the record's.
unfoldable pub is_connected_device : ℕ → List ℕ → List DeviceInfo → M Bool
unfolding eq_bytes
is_connected_device id record_id [] = pure false
is_connected_device id record_id (info ∷ infos) =
    let rest = is_connected_device id record_id infos in
    if info.id == id
    then (do serial ← deref info.serial; if eq_bytes serial record_id then pure true else rest)
    else rest

module _ (sys : Sys) (conf : Conf) where
  abbrev answer : ℕ → ℕ → ℕ → M ℤ
  answer p tag code = to_status (send_result sys p tag code)

  -- The end of a request to connect, in both forms of the message.
  unfoldable pub start_request : ℕ → ℕ → ℕ → ℕ → M ℤ
  unfolding device_start_connect send_result
  start_request p tag id port = do
    res ← device_start_connect sys id (ntohs port) p
    if is_neg res then answer p tag (negate res) else (do
      c ← load_client p
      store_client p (record c { connect_tag = tag; connect_device = id; state = connecting1 })
      pure (pos 0))

  unfoldable pub connect_request : ℕ → ℕ → Plist → M ℤ
  unfolding start_request result_code
  connect_request p tag d = elim (get_item d (codes "DeviceID")) [
    | none ↦ answer p tag (result_code bad_dev)
    | some id ↦ elim (get_item d (codes "PortNumber")) [
      | none ↦ answer p tag (result_code bad_command)
      | some port ↦ start_request p tag (uint_val id % m32) (uint_val port % m16)
    ]
  ]

  -- A stored record of a connected device is announced to the listeners.
  unfoldable pub announce_paired : ℕ → List ℕ → M (Unit {0})
  unfolding device_get_list is_connected_device client_device_paired
  announce_paired id record_id =
      if ltb 0 id
      then (do
        infos ← device_get_list true
        found ← is_connected_device id record_id infos
        if found then client_device_paired sys id else pure tt)
      else pure tt

  unfoldable pub save_request : Plist → M ℕ
  unfolding announce_paired
  save_request d = elim (string_of (get_item d (codes "PairRecordID"))) [
    | none ↦ pure einval
    | some record_id ↦ elim (data_of (get_item d (codes "PairRecordData"))) [
      | none ↦ pure einval
      | some record_data ↦ do
        res ← conf.config_set_device_record record_id record_data
        if is_neg res then pure (negate res) else (do
          announce_paired (uint_of (get_item d (codes "DeviceID")) % m32) record_id
          pure 0)
    ]
  ]

  unfoldable pub delete_request : Plist → M ℕ
  delete_request d = elim (string_of (get_item d (codes "PairRecordID"))) [
    | none ↦ pure einval
    | some record_id ↦ do
      res ← conf.config_remove_device_record record_id
      pure (if is_neg res then negate res else 0)
  ]

  unfoldable pub listen_command : ℕ → ℕ → M ℤ
  unfolding send_result start_listen
  listen_command p tag = do
    r ← send_result sys p tag 0
    if is_neg r then pure (negsuc 0) else start_listen sys p

  unfoldable pub serve : ℕ → ℕ → Plist → Request → M ℤ
  unfolding listen_command connect_request send_device_list send_listener_list send_system_buid
      send_pair_record save_request delete_request result_code
  serve p tag d listen_request = listen_command p tag
  serve p tag d connect = connect_request p tag d
  serve p tag d list_devices = to_status (send_device_list sys conf p tag)
  serve p tag d list_listeners = to_status (send_listener_list sys conf p tag)
  serve p tag d read_buid = to_status (send_system_buid sys conf p tag)
  serve p tag d read_pair_record =
      to_status (send_pair_record sys conf p tag (string_of (get_item d (codes "PairRecordID"))))
  serve p tag d save_pair_record = do code ← save_request d; answer p tag code
  serve p tag d delete_pair_record = do code ← delete_request d; answer p tag code
  serve p tag d unknown = answer p tag (result_code bad_command)

  -- A property list: the text must parse and name its message.
  unfoldable pub plist_command : ℕ → ℕ → List ℕ → M ℤ
  unfolding serve request_of client_info
  plist_command p tag payload = do
    c ← load_client p
    store_client p (record c { proto_version = 1 })
    elim (sys.from_xml payload) [
      | none ↦ pure (negsuc 0)
      | some d ↦ elim (string_of (get_item d (codes "MessageType"))) [
        | none ↦ pure (negsuc 0)
        | some message ↦ do
          c ← load_client p
          store_client p (record c { info = some (client_info d) })
          serve p tag d (request_of message)
      ]
    ]

  -- `struct usbmuxd_connect_request` behind the header: the device and the port, which is in
  -- network order. Memory behind a shorter message is stale.
  unfoldable pub binary_connect : ℕ → ℕ → List ℕ → M ℤ
  unfolding start_request
  binary_connect p tag payload =
      let at = λ (i : ℕ). get_or payload i (sys.stale (header_len + i)) in
      start_request p tag (of_le32 (at 0) (at 1) (at 2) (at 3)) (at 4 + at 5 * 256)

  unfoldable pub handle_message : ℕ → Header → List ℕ → M ℤ
  unfolding plist_command listen_command binary_connect send_result result_code
  handle_message p hdr payload =
      if ltb 1 hdr.version
      then (do send_result sys p hdr.tag (result_code bad_version); pure (pos 0))
      else if hdr.message == message_plist
      then plist_command p hdr.tag payload
      else if hdr.message == message_listen
      then listen_command p hdr.tag
      else if hdr.message == message_connect
      then binary_connect p hdr.tag payload
      else answer p hdr.tag (result_code bad_command)

  -- A client that is not waiting for commands is told so and closed.
  unfoldable pub handle_command : ℕ → Header → List ℕ → M ℤ
  unfolding handle_message client_close
  handle_command p hdr payload = do
    c ← load_client p
    elim c.state [
      | command ↦ handle_message p hdr payload
      | _ ↦ do
        r ← send_result sys p hdr.tag (result_code bad_command)
        if is_neg r then pure (negsuc 0) else (do client_close sys p; pure (negsuc 0))
    ]
