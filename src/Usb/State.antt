-- ===== src/Usb/State.antt =====
-- The state of src/usb.c: `struct usb_device`. `handle` is NULL once the device is closed.
use usbmuxd.Prelude.{Bool, List, Option, ℕ}

-- The fields of libusb's device descriptor that the code reads.
pub record Descriptor : Type 0 where
  pub vendor : ℕ
  pub product : ℕ
  pub serial_index : ℕ
  pub configurations : ℕ

pub record UsbDevice : Type 0 where
  pub handle : Option ℕ
  pub bus : ℕ
  pub address : ℕ
  pub serial : List ℕ
  pub alive : Bool
  pub interface : ℕ
  pub ep_in : ℕ
  pub ep_out : ℕ
  pub rx_xfers : List ℕ
  pub tx_xfers : List ℕ
  pub max_packet_size : ℕ
  pub speed : ℕ
  pub devdesc : Descriptor

-- The fields of an interface's first alternate setting, and of a configuration, that the code
-- reads; `value` is `bConfigurationValue`.
pub record Interface : Type 0 where
  pub class : ℕ
  pub subclass : ℕ
  pub protocol : ℕ
  pub number : ℕ
  pub endpoints : List ℕ

pub record Configuration : Type 0 where
  pub value : ℕ
  pub interfaces : List Interface

-- `enum libusb_speed`.
pub data Speed : Type 0 where
  speed_unknown speed_low speed_full speed_high speed_super speed_super_plus : Speed

-- `struct mode_context`.
pub record ModeContext : Type 0 where
  pub dev : ℕ
  pub bus : ℕ
  pub address : ℕ
  pub request : ℕ
  pub value : ℕ
  pub index : ℕ
  pub length : ℕ
  pub timeout : ℕ

-- `struct timeval`.
pub record Timeval : Type 0 where
  pub tv_sec : ℕ
  pub tv_usec : ℕ
