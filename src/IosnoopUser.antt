-- ===== src/IosnoopUser.antt =====
-- The reader of the trace pipe, tools/BPF-tools/old/2015-03-25/iosnoop_user.c. `none` is a null
-- pointer where one is read, or a line without a colon: there `strtok` is passed a null pointer and
-- goes on in the buffer where the line before has left it.
pub mod Cstring
pub mod Printed
pub mod Line
pub mod Delivery
pub mod Reported
