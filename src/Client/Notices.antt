-- ===== src/Client/Notices.antt =====
-- The messages about devices that src/client.c sends to its listening clients.
pub mod Halting
use usbmuxd.Prelude.{
  Bool, List, [], false, if◌then◌else◌, is_neg, le16, le32, length, negsuc, pos, replicate, take,
  true, ℕ, ℤ, ◌++◌, ◌-◌, ◌==◌, ◌∷◌,
}
use usbmuxd.World.{M, Sys, deref, load_client, pure, store_client, ◌>>=◌, ◌>>◌}
use usbmuxd.Proto.{message_device_add, message_device_paired, message_device_remove}
use usbmuxd.Plist.{Plist, codes, dict, field, stop, string, uint}
use usbmuxd.Client.State.{listen}
use usbmuxd.Client.Output.{output_buffer_add_message, send_plist}
use usbmuxd.Device.State.{DeviceInfo, proto_version}
use usbmuxd.Device.Listing.{device_get_list, device_set_visible}

-- `strncpy` into a field of 256 bytes whose last is then set to 0.
unfoldable pub serial_field : List ℕ → List ℕ
serial_field s = let kept = take 255 s in kept ++ replicate (256 - length kept) 0

-- `struct usbmuxd_device_record`, packed.
unfoldable pub device_record : DeviceInfo → List ℕ → List ℕ
unfolding serial_field
device_record info serial =
    le32 info.id ++ (le16 info.pid ++ (serial_field serial ++ (0 ∷ 0 ∷ le32 info.location)))

unfoldable pub create_device_attached_plist : DeviceInfo → List ℕ → Plist
create_device_attached_plist info serial = dict (
    field (codes "MessageType") (string (codes "Attached")) (
      field (codes "DeviceID") (uint info.id) (
        field (codes "Properties")
          (dict (
            field (codes "ConnectionSpeed") (uint info.speed) (
              field (codes "ConnectionType") (string (codes "USB")) (
                field (codes "DeviceID") (uint info.id) (
                  field (codes "LocationID") (uint info.location) (
                    field (codes "ProductID") (uint info.pid)
                      (field (codes "SerialNumber") (string serial) stop)))))))
          stop)))

-- The property list of the two messages that carry only the id.
abbrev pub id_plist : List ℕ → ℕ → Plist
id_plist message id =
    dict (field (codes "MessageType") (string message) (field (codes "DeviceID") (uint id) stop))

module _ (sys : Sys) where
  -- A message as a property list for a client of protocol version 1, else in binary.
  abbrev pub by_version : ℕ → ℕ → Plist → ℕ → List ℕ → M ℤ
  by_version p tag plist msg payload = do
    c ← load_client p
    if c.proto_version == 1
        then send_plist sys p tag plist
        else output_buffer_add_message sys p tag msg payload

  -- `serial` is NULL for a device whose handle is closed.
  unfoldable pub send_device_add : ℕ → DeviceInfo → M ℤ
  unfolding device_record create_device_attached_plist
  send_device_add p info = do
    serial ← deref info.serial
    by_version p 0 (create_device_attached_plist info serial) message_device_add
        (device_record info serial)

  unfoldable pub send_device_remove : ℕ → ℕ → M ℤ
  send_device_remove p id =
      by_version p 0 (id_plist (codes "Detached") id) message_device_remove (le32 id)

  unfoldable pub send_device_paired : ℕ → ℕ → M ℤ
  send_device_paired p id =
      by_version p 0 (id_plist (codes "Paired") id) message_device_paired (le32 id)

  -- `FOREACH` over the clients, for those that listen; the result of each message is ignored.
  unfoldable pub to_listeners : (ℕ → M ℤ) → List ℕ → M (Unit {0})
  to_listeners send [] = pure tt
  to_listeners send (p ∷ ps) = do
    c ← load_client p
    elim c.state [ listen ↦ do send p; pure tt | _ ↦ pure tt ]
    to_listeners send ps

  unfoldable pub client_device_add : DeviceInfo → M (Unit {0})
  unfolding device_set_visible to_listeners send_device_add
  client_device_add info = do
    device_set_visible info.id
    λ w. to_listeners (λ p. send_device_add p info) w.client_list w

  unfoldable pub client_device_remove : ℕ → M (Unit {0})
  unfolding to_listeners send_device_remove
  client_device_remove id w = to_listeners (λ p. send_device_remove p id) w.client_list w

  unfoldable pub client_device_paired : ℕ → M (Unit {0})
  unfolding to_listeners send_device_paired
  client_device_paired id w = to_listeners (λ p. send_device_paired p id) w.client_list w

  -- One message for each device, until one fails.
  unfoldable pub send_all : ℕ → List DeviceInfo → M Bool
  unfolding send_device_add
  send_all p [] = pure true
  send_all p (info ∷ infos) = do
    r ← send_device_add p info
    let rest = send_all p infos
    if is_neg r then pure false else rest

  unfoldable pub start_listen : ℕ → M ℤ
  unfolding device_get_list send_all
  start_listen p = do
    c ← load_client p
    store_client p (record c { state = listen })
    infos ← device_get_list false
    done ← send_all p infos
    pure (if done then pos (length infos) else negsuc 0)
