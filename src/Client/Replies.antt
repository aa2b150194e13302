-- ===== src/Client/Replies.antt =====
-- The answers of src/client.c that carry more than a result code.
use usbmuxd.Prelude.{
  Bool, List, Option, [], false, if◌then◌else◌, ltb, none, some, suc, true, zero, ℕ, ℤ, ◌%◌, ◌++◌,
  ◌+◌, ◌/◌, ◌∷◌,
}
use usbmuxd.World.{M, Sys, deref, load_client, pure, ◌>>=◌}
use usbmuxd.Plist.{
  Items, Plist, array, boolean, bytes, codes, dict, end, field, get_item, item, stop, string,
  string_of, uint, uint_of,
}
use usbmuxd.Client.State.{ClientState, MuxClient, listen}
use usbmuxd.Client.Output.{send_plist, send_result}
use usbmuxd.Client.Notices.{create_device_attached_plist}
use usbmuxd.Device.State.{DeviceInfo}
use usbmuxd.Device.Listing.{device_get_list}

-- `EINVAL` and `ENOENT` of <errno.h>.
abbrev pub einval : ℕ
einval = 22

abbrev pub enoent : ℕ
enoent = 2

-- What src/client.c uses of src/conf.c.
pub record Conf : Type 0 where
  pub config_get_system_buid : M (List ℕ)
  pub config_get_device_record : List ℕ → M (Option (List ℕ))
  pub config_set_device_record : List ℕ → List ℕ → M ℤ
  pub config_remove_device_record : List ℕ → M ℤ

-- `%u` of a `uint32_t`: at most ten digits.
unfoldable pub decimal_digits : ℕ → ℕ → List ℕ → List ℕ
decimal_digits zero n acc = acc
decimal_digits (suc fuel) n acc =
    let acc' = (48 + n % 10) ∷ acc in
    let more = decimal_digits fuel (n / 10) acc' in if ltb n 10 then acc' else more

unfoldable pub decimal : ℕ → List ℕ
unfolding decimal_digits
decimal n = decimal_digits 10 n []

abbrev or_else : Option (List ℕ) → List ℕ → List ℕ
or_else none d = d
or_else (some s) d = s

abbrev info_item : MuxClient → List ℕ → Option Plist
info_item c key = elim c.info [ none ↦ none | some i ↦ get_item i key ]

-- The entry for the listener `lc` in the answer to a client with that number.
unfoldable pub listener_plist : ℕ → MuxClient → Plist
unfolding decimal
listener_plist number lc =
    let progname = or_else (string_of (info_item lc (codes "ProgName"))) (codes "unknown") in
    let tail = field (codes "ConnType") (uint 0) (
      field (codes "ID String") (string (decimal number ++ (45 ∷ progname))) (
        field (codes "ProgName") (string progname) (
          field (codes "kLibUSBMuxVersion")
            (uint (uint_of (info_item lc (codes "kLibUSBMuxVersion")))) stop))) in
    dict (
      field (codes "Blacklisted") (boolean false) (elim (info_item lc (codes "BundleID")) [
        | none ↦ tail
        | some v ↦ field (codes "BundleID") v tail
      ]))

abbrev is_listening : ClientState → Bool
is_listening listen = true
is_listening _ = false

-- One entry for each listening client, in the order of the list.
unfoldable pub listeners : ℕ → List ℕ → M Items
unfolding listener_plist
listeners number [] = pure end
listeners number (r ∷ rs) = do
  lc ← load_client r
  rest ← listeners number rs
  pure (if is_listening lc.state then item (listener_plist number lc) rest else rest)

-- The devices as property lists. `plist_new_string` of a NULL serial is a fault.
unfoldable pub device_items : List DeviceInfo → M Items
unfolding create_device_attached_plist
device_items [] = pure end
device_items (info ∷ infos) = do
  serial ← deref info.serial
  rest ← device_items infos
  pure (item (create_device_attached_plist info serial) rest)

module _ (sys : Sys) (conf : Conf) where
  unfoldable pub send_device_list : ℕ → ℕ → M ℤ
  unfolding device_get_list device_items send_plist
  send_device_list p tag = do
    infos ← device_get_list false
    devices ← device_items infos
    send_plist sys p tag (dict (field (codes "DeviceList") (array devices) stop))

  unfoldable pub send_listener_list : ℕ → ℕ → M ℤ
  unfolding listeners send_plist
  send_listener_list p tag w =
      (do
        c ← load_client p
        items ← listeners c.number w.client_list
        send_plist sys p tag (dict (field (codes "ListenerList") (array items) stop)))
        w

  unfoldable pub send_system_buid : ℕ → ℕ → M ℤ
  unfolding send_plist
  send_system_buid p tag = do
    buid ← conf.config_get_system_buid
    send_plist sys p tag (dict (field (codes "BUID") (string buid) stop))

  unfoldable pub send_pair_record : ℕ → ℕ → Option (List ℕ) → M ℤ
  unfolding send_plist send_result
  send_pair_record p tag none = send_result sys p tag einval
  send_pair_record p tag (some id) = do
    found ← conf.config_get_device_record id
    elim found [
      | none ↦ send_result sys p tag enoent
      | some record_data ↦
          send_plist sys p tag (dict (field (codes "PairRecordData") (bytes record_data) stop))
    ]
