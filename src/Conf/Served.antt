-- ===== src/Conf/Served.antt =====
-- What src/client.c uses of src/conf.c, filled by its functions: the buffers as they are, without
-- the result code that src/client.c does not read.
use usbmuxd.Prelude.{some}
use usbmuxd.World.{Sys, pure, ◌>>=◌}
use usbmuxd.Client.Replies.{Conf}
use usbmuxd.Conf.Buid.{config_get_system_buid}
use usbmuxd.Conf.Records.{
  config_get_device_record, config_remove_device_record, config_set_device_record,
}

unfoldable pub daemon_conf : Sys → Conf
unfolding config_get_system_buid config_get_device_record config_set_device_record
    config_remove_device_record
daemon_conf sys = record {
  config_get_system_buid = config_get_system_buid sys;
  config_get_device_record = λ id. config_get_device_record sys id >>= λ a. pure a.1;
  config_set_device_record = λ id b. config_set_device_record sys (some id) (some b);
  config_remove_device_record = config_remove_device_record sys;
}
