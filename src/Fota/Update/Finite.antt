-- ===== src/Fota/Update/Finite.antt =====
-- The report of Firmware/src/fota.c comes to an end.
use air_quality_sensor_node.Base.Outcome.{Outcome}
use air_quality_sensor_node.Base.Ends.{Ends}
