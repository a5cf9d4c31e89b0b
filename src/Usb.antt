-- ===== src/Usb.antt =====
-- src/kernel/usb: the data structures of the USB driver.
pub mod ArrayMap
pub mod Memory
pub mod Ring
pub mod Xhci
