-- ===== src/Kernel/Ipc/Examples.antt =====
-- Tests and an instance of the theorem on the footprint of a channel.
use malleus_rtos.Base.Text.{codes}
use malleus_rtos.Kernel.Ipc.{Overflow, ChannelDescriptor}

abbrev sensor_data : ChannelDescriptor
sensor_data = record {
  name = codes "sensor-data";
  capacity = record { count = 16 };
  max_message_bytes = 32;
  overflow = Overflow.drop_oldest;
  sender = record { raw = 1 };
  receiver = record { raw = 2 };
}
