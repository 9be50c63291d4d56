-- ===== src/Mqtt.antt =====
-- The Sparkplug B bridge, internal/mqtt.
pub mod StoreForward
