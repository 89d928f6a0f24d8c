-- ===== src/Wireless.antt =====
-- internal/wireless: the WLAN type, the stored format, the provisioning plan, the evidence of the
-- device's VAP table and the delivery bookkeeping.
pub mod Wlan
pub mod Json
pub mod Evidence
pub mod Plan
pub mod Stored
pub mod Delivery
