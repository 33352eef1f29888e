-- ===== src/Overlay/Histories.antt =====
-- Whole histories of calls on a new `Overlay`, and what a session that has ended does to a
-- committed pipe (overlay.cpp).
use android_device_casio_dtx.Overlay.State.{Overlay}
