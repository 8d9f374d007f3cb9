-- ===== src/Delivery/Due/PipelineOptions.antt =====
-- The worker's pipeline can always be built.
