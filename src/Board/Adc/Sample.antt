-- ===== src/Board/Adc/Sample.antt =====
-- The sample of Firmware/src/ads124s08.c (adc_sample_data).
